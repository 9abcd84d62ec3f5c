-- ===== src/Session/Ni/Retry.antt =====
-- How often an initiator sends its CONFIGURE again.
use m_nslp.Prelude.{ℕ, zero, suc, ◌+◌, ◌<◌, ◌≡◌, refl, true, some, List, ◌∷◌, arith, u32, u32_mod}
use m_nslp.Platform.{Platform}
use m_nslp.Msg.Ntlp.{NtlpMsg}
use m_nslp.Event.{timer_event}
use m_nslp.Node.{Node, is_sendable}
use m_nslp.Node.Monad.{M, Ctx, World, Action, sent, timer_started, reported, Outcome, ok, ◌>>◌}
use m_nslp.Session.Ni.{Ni, close, pending}
use m_nslp.Session.Ni.Machine.{process_event, handle_state, handle_state_pending, retry_configure}

module _ {P : Platform} where
  -- The timer with an id goes off.
  abbrev time_out : Node P → ℕ → Ctx P (Ni P) → Outcome (Unit {0}) × Ctx P (Ni P)
  time_out d id c = process_event d (timer_event id) c

  -- The context after one more attempt.
  abbrev retried : Node P → NtlpMsg P → Ctx P (Ni P) → Ctx P (Ni P)
  retried d m c = record {
    self = record s {
      configure_counter = u32 (s.configure_counter + 1);
      response_timer = d.timer_id w.timers;
      state = pending;
    };
    world = record w {
      timers = suc w.timers;
      log = timer_started (d.timer_id w.timers) s.response_timeout ∷ sent m ∷ w.log;
    };
  }
    where
      s : Ni P
      s = c.self

      w : World P
      w = c.world

  retry_lem :
      (d : Node P) (m : NtlpMsg P) (c : Ctx P (Ni P))
      → c.self.state ≡ pending
      → c.self.last_configure ≡ some m
      → is_sendable m.body ≡ true
      → c.self.configure_counter < c.self.max_retries
      → time_out d c.self.response_timer c ≡ (ok tt, retried d m c)
  unfolding process_event handle_state handle_state_pending retry_configure
  retry_lem d m c p l s h = ground arith

  -- A timer with a given id goes off, and after it, one by one, the `n` timers that the node starts
  -- from number `t` on.
  unfoldable pub time_outs : Node P → ℕ → ℕ → ℕ → M P (Ni P) (Unit {0})
  time_outs d zero id t = time_out d id
  time_outs d (suc n) id t = time_out d id >> time_outs d n (d.timer_id t) (suc t)

  time_outs-suc :
      (d : Node P) (n id t : ℕ) (c c' : Ctx P (Ni P))
      → time_out d id c ≡ (ok tt, c')
      → time_outs d (suc n) id t c ≡ time_outs d n (d.timer_id t) (suc t) c'
  unfolding time_outs
  time_outs-suc d n id t c c' e = ground arith

  -- What `k` attempts add to the record, newest first: each sends the message and starts the next
  -- timer, from number `t` on, with the same number of seconds.
  abbrev pub attempts : Node P → NtlpMsg P → ℕ → ℕ → ℕ → List (Action P) → List (Action P)
  attempts d m seconds zero t log = log
  attempts d m seconds (suc k) t log =
      attempts d m seconds k (suc t) (timer_started (d.timer_id t) seconds ∷ sent m ∷ log)

  give_up_lem :
      (d : Node P) (c : Ctx P (Ni P))
      → c.self.state ≡ pending
      → c.self.configure_counter ≡ c.self.max_retries
      → let r = time_out d c.self.response_timer c in
        (r.0 ≡ ok tt)
        × (r.1.self.state ≡ close)
        × (r.1.world.log ≡ reported "got no response for our Configure" ∷ c.world.log)
        × (r.1.world.timers ≡ c.world.timers)
  unfolding process_event handle_state handle_state_pending retry_configure
  give_up_lem d c p h = ground arith

  -- A pending session whose timers go off one after the other, each the one that was started last,
  -- sends the CONFIGURE that it keeps exactly as often as it has retries left. Each time it starts a
  -- timer with the response timeout. The timeout that follows closes it, and the user is told, with
  -- nothing more sent and no timer started.
  pub gives_up :
      (k : ℕ) (d : Node P) (m : NtlpMsg P) (c : Ctx P (Ni P))
      → c.self.state ≡ pending
      → c.self.last_configure ≡ some m
      → is_sendable m.body ≡ true
      → c.self.configure_counter + k ≡ c.self.max_retries
      → c.self.max_retries < u32_mod
      → let r = time_outs d k c.self.response_timer c.world.timers c in
        (r.0 ≡ ok tt)
        × (r.1.self.state ≡ close)
        × (r.1.world.log
            ≡ reported "got no response for our Configure"
              ∷ attempts d m c.self.response_timeout k c.world.timers c.world.log)
        × (r.1.world.timers ≡ c.world.timers + k)
  unfolding time_outs
  gives_up zero d m c p l s h small =
      let last = give_up_lem d c p (omega arith) in (last.0, last.1, last.2, omega (arith, last.3))
  gives_up (suc k) d m c p l s h small =
      let ih = gives_up k d m (retried d m c) refl l s (omega arith) small in
      rw
        (time_outs-suc d k c.self.response_timer c.world.timers c (retried d m c)
          (retry_lem d m c p l s (omega arith)))
        (ih.0, ih.1, ih.2, omega (arith, ih.3))
