-- ===== src/Session/Nf/Refresh.antt =====
-- How a forwarder that meters treats REFRESH messages and their responses.
use m_nslp.Prelude.{
  ℕ, suc, ◌≤◌, ◌≡◌, ◌≢◌, refl, Bool, true, false, none, some, ◌∷◌, ◌==◌, arith, if◌then◌else◌,
}
use m_nslp.Platform.{Platform}
use m_nslp.Msg.Code
use m_nslp.Msg.Serial.{is_greater_than}
use m_nslp.Msg.Message.{
  Message, refresh, get_session_lifetime, get_msg_sequence_number, is_success, is_response_to,
}
use m_nslp.Msg.Ntlp.{NtlpMsg, copy_for_forwarding, create_response}
use m_nslp.Event.{msg, timer_event, get_message, matching_response}
use m_nslp.Node.{Node, is_sendable, send_message, start_timer}
use m_nslp.Node.Monad.{Ctx, World, ok, sent, timer_started}
use m_nslp.Node.Removing.{Removes, after_removal, remove_installed_lem}
use m_nslp.Node.Sending.{create_response-sendable}
use m_nslp.Session.{accept, check_preconditions}
use m_nslp.Session.Preconditions.{check_preconditions_small}
use m_nslp.Session.Nf.{Nf, close, metering, start_response_timer, start_state_timer}
use m_nslp.Session.Nf.Refreshing.{
  pass_on, metering_refresh, lose_peer, confirm, metering_response, metering_other,
  handle_state_metering, handle_state, process_event,
}

nonzero_test : (n : ℕ) → n ≢ 0 → (n == 0) ≡ false
nonzero_test n h = ground (arith, h)

zero_test : (n : ℕ) → n ≡ 0 → (n == 0) ≡ true
zero_test n h = ground arith

not_newer_itself : (n : ℕ) → is_greater_than n n ≡ false
unfolding is_greater_than
not_newer_itself n = ground arith

module _ {P : Platform} where
  module _ (d : Node P) (m : NtlpMsg P) (own : Bool) (r : Message P) (c : Ctx P (Nf P))
      (is_refresh : get_message refresh (msg m own) ≡ some r)
      (meters : c.self.state ≡ metering) where
    step : handle_state_metering d (msg m own) c ≡ metering_refresh d m r c
    unfolding handle_state_metering
    step = ground arith

    -- A forwarder ignores a REFRESH that passes the checks and is not newer than the last one:
    -- nothing is changed and nothing is passed on.
    stale_refresh_dropped :
        (l : ℕ)
        → check_preconditions d m (get_session_lifetime r) c.self.max_lifetime ≡ accept l
        → is_greater_than (get_msg_sequence_number r) c.self.msn ≡ false
        → process_event d (msg m own) c ≡ (ok tt, c)
    unfolding process_event handle_state metering_refresh
    stale_refresh_dropped l h s = ground (arith, step)

    -- The session and the record after a REFRESH that was passed on.
    abbrev passed_on : ℕ → Ctx P (Nf P)
    passed_on l = record {
      self = record (c.self) {
        lifetime = l;
        response_timer = d.timer_id w.timers;
        msn = if l == 0 then c.self.msn else get_msg_sequence_number r;
        refresh_message = some m;
      };
      world = record w {
        timers = suc w.timers;
        log =
            timer_started (d.timer_id w.timers) c.self.response_timeout
            ∷ sent (copy_for_forwarding m)
            ∷ w.log;
      };
    }
      where
        w : World P
        w = c.world

    pass_on_lem :
        (l : ℕ)
        → is_sendable m.body ≡ true
        → pass_on d m l (get_msg_sequence_number r) c ≡ (ok metering, passed_on l)
    unfolding pass_on send_message start_response_timer start_timer copy_for_forwarding
    pass_on_lem l s = ground arith

    -- A forwarder takes over the lifetime of a newer REFRESH that passes the checks, keeps the
    -- message to match its response, passes it on and starts to wait for the response. It takes
    -- over the sequence number unless the lifetime is 0. The message has to be one that can be
    -- serialized.
    newer_refresh_passed_on :
        (l : ℕ)
        → check_preconditions d m (get_session_lifetime r) c.self.max_lifetime ≡ accept l
        → is_greater_than (get_msg_sequence_number r) c.self.msn ≡ true
        → is_sendable m.body ≡ true
        → process_event d (msg m own) c ≡ (ok tt, passed_on l)
    unfolding process_event handle_state metering_refresh
    newer_refresh_passed_on l h g s = ground (arith, step, pass_on_lem l s)

  -- A newer REFRESH that is authorized and asks for no more than the maximum arrives twice at a
  -- forwarder that meters. The forwarder passes the first copy on. If the lifetime is not 0, the second
  -- copy changes nothing and is not passed on. If it is 0, which ends the session, the sequence number
  -- was not taken over, and the second copy is passed on again, with another timer. The message has
  -- to be one that can be serialized.
  pub repeated_refresh :
      (d : Node P) (m : NtlpMsg P) (own : Bool) (r : Message P) (c : Ctx P (Nf P))
      → get_message refresh (msg m own) ≡ some r
      → c.self.state ≡ metering
      → d.is_authorized m ≡ true
      → get_session_lifetime r ≤ c.self.max_lifetime
      → is_greater_than (get_msg_sequence_number r) c.self.msn ≡ true
      → is_sendable m.body ≡ true
      → let once = process_event d (msg m own) c in
        let twice = process_event d (msg m own) once.1 in
        (once.0 ≡ ok tt)
        × (once.1.world.log
            ≡ timer_started (d.timer_id c.world.timers) c.self.response_timeout
              ∷ sent (copy_for_forwarding m)
              ∷ c.world.log)
        × (get_session_lifetime r ≢ 0 → twice ≡ (ok tt, once.1))
        × (get_session_lifetime r ≡ 0
            → (twice.0 ≡ ok tt)
              × (twice.1.world.log
                  ≡ timer_started (d.timer_id (suc c.world.timers)) c.self.response_timeout
                    ∷ sent (copy_for_forwarding m)
                    ∷ once.1.world.log))
  repeated_refresh d m own r c is meters auth small newer sendable =
      let l = get_session_lifetime r in
      let checked : check_preconditions d m l c.self.max_lifetime ≡ accept l =
        check_preconditions_small d m l c.self.max_lifetime small auth in
      let first = newer_refresh_passed_on d m own r c is meters l checked newer sendable in
      let after = passed_on d m own r c is meters l in
      rw first (
        refl,
        refl,
        (λ n.
            stale_refresh_dropped d m own r after is meters l checked
              (rw (nonzero_test l n) (not_newer_itself (get_msg_sequence_number r)))),
        (λ z.
            rw
              (newer_refresh_passed_on d m own r after is meters l checked
                (rw (zero_test l z) newer) sendable)
              (refl, refl)),
      )

  module _ (d : Node P) (m : NtlpMsg P) (own : Bool) (resp : Message P) (c : Ctx P (Nf P))
      (last : NtlpMsg P) (r : Message P) (meters : c.self.state ≡ metering)
      (stored : c.self.refresh_message ≡ some last) (body : last.body ≡ some r)
      (match : matching_response (msg m own) last ≡ some resp)
      (answers : is_response_to resp r ≡ true) (success : is_success resp ≡ true)
      (sendable : is_sendable m.body ≡ true) (lives : c.self.lifetime ≢ 0) where
    -- The session and the record after the response was passed on.
    abbrev pub confirmed : Ctx P (Nf P)
    confirmed = record {
      self = record (c.self) { state_timer = d.timer_id w.timers };
      world = record w {
        timers = suc w.timers;
        log =
            timer_started (d.timer_id w.timers) c.self.lifetime
            ∷ sent (copy_for_forwarding m)
            ∷ w.log;
      };
    }
      where
        w : World P
        w = c.world

    confirm_lem : confirm d m c ≡ (ok metering, confirmed)
    unfolding confirm send_message start_state_timer start_timer copy_for_forwarding
    confirm_lem = ground arith

    not_refresh : get_message refresh (msg m own) ≡ none
    unfolding matching_response
    not_refresh = ground arith

    response_lem : metering_response d (msg m own) c ≡ confirm d m c
    unfolding metering_response
    response_lem = ground arith

    -- A success response to the REFRESH is passed on and the state timer starts anew. The timer
    -- that waits for the response is not stopped.
    response_confirms : process_event d (msg m own) c ≡ (ok tt, confirmed)
    unfolding process_event handle_state handle_state_metering metering_other
    response_confirms = ground (arith, not_refresh, response_lem, confirm_lem)

    lose_peer_lem :
        Removes d c.self.rule
        → ((lose_peer d confirmed).0 ≡ ok close)
          × ((lose_peer d confirmed).1.world.log
              ≡ sent (create_response Code.sc_permanent_failure Code.fail_nr_not_reached last)
                ∷ (after_removal c.self.rule confirmed.world).log)
    unfolding lose_peer send_message
    lose_peer_lem rem = ground (
      arith,
      remove_installed_lem d c.self.rule
          (record confirmed { self = record (confirmed.self) { state_timer = 0 } }) rem,
      create_response-sendable P Code.sc_permanent_failure Code.fail_nr_not_reached last
          (omega arith),
    )

    late_timer :
        Removes d c.self.rule
        → let late = process_event d (timer_event c.self.response_timer) confirmed in
          (late.0 ≡ ok tt)
          × (late.1.self.state ≡ close)
          × (late.1.world.log
              ≡ sent (create_response Code.sc_permanent_failure Code.fail_nr_not_reached last)
                ∷ (after_removal c.self.rule confirmed.world).log)
    unfolding process_event handle_state handle_state_metering metering_other
    late_timer rem = ground (arith, lose_peer_lem rem)

    -- Though its REFRESH was answered with success, the session is closed when the timer that
    -- waited for the answer goes off: the rule is removed and the initiator gets the error that
    -- the responder was not reached. The removal has to return all keys.
    pub confirmed_session_lost :
        Removes d c.self.rule
        → let late =
            process_event d (timer_event c.self.response_timer) (process_event d (msg m own) c).1 in
          (late.0 ≡ ok tt)
          × (late.1.self.state ≡ close)
          × (late.1.world.log
              ≡ sent (create_response Code.sc_permanent_failure Code.fail_nr_not_reached last)
                ∷ (after_removal c.self.rule confirmed.world).log)
    confirmed_session_lost rem = rw response_confirms (late_timer rem)
