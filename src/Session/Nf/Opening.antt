-- ===== src/Session/Nf/Opening.antt =====
-- How a forwarder comes to meter.
use m_nslp.Prelude.{suc, ◌≡◌, ◌≢◌, refl, sym, ◌∙◌, Bool, true, Option, none, some, ◌∷◌, arith}
use m_nslp.Platform.{Platform}
use m_nslp.Msg.Message.{Message, configure, is_success}
use m_nslp.Msg.Ntlp.{NtlpMsg, copy_for_forwarding}
use m_nslp.Rule.{PolicyRule, get_number_mspec_objects}
use m_nslp.Event.{Body, msg, get_message, matching_response}
use m_nslp.Node.{Node, send_message, start_timer, install_policy_rules}
use m_nslp.Node.Monad.{Ctx, World, Outcome, ok, thrown, fault, sent, timer_started, rules_installed}
use m_nslp.Session.Nf.{Nf, pending, metering, start_state_timer}
use m_nslp.Session.Nf.Machine.{
  settle, accept_response, pending_response, pending_other, handle_state_pending, ntlp_msg_of,
}
use m_nslp.Session.Nf.Refreshing.{handle_state, process_event}
use m_nslp.Session.Nf.Pending.{
  handle_state_close-state, pending_configure-state, give_up-state, reject_response-state,
  abandon-state,
}

module _ {P : Platform} where
  handle_state_pending-step :
      (d : Node P) (b : Body P) (c : Ctx P (Nf P))
      → (handle_state_pending d b c).0 ≡ ok metering
      → pending_other d b c ≡ handle_state_pending d b c
  unfolding handle_state_pending
  handle_state_pending-step d (msg m own) c h = cases (get_message configure (msg m own)) refl
    where
      cases :
          (o : Option (Message P))
          → get_message configure (msg m own) ≡ o
          → pending_other d (msg m own) c ≡ handle_state_pending d (msg m own) c
      cases none e = ground arith
      cases (some r) e = ground (arith, pending_configure-state d m r c)
  handle_state_pending-step d _ c h = refl

  pending_other-step :
      (d : Node P) (b : Body P) (c : Ctx P (Nf P))
      → (pending_other d b c).0 ≡ ok metering
      → pending_other d b c ≡ pending_response d b c
  unfolding pending_other
  pending_other-step d b c h = ground (arith, give_up-state c)

  -- The event is a success response to the CONFIGURE that the forwarder keeps.
  abbrev pub Succeeds : Body P → Ctx P (Nf P) → NtlpMsg P → Type 0
  Succeeds b c m =
      (own : Bool) × (last : NtlpMsg P) × (resp : Message P) × (b ≡ msg m own)
      × (c.self.configure_message ≡ some last)
      × (matching_response b last ≡ some resp)
      × (is_success resp ≡ true)

  other-state :
      (d : Node P) (b : Body P) (c : Ctx P (Nf P))
      → ntlp_msg_of b ≡ none
      → (pending_response d b c).0 ≢ ok metering
  unfolding pending_response
  other-state d b c n h = ground arith

  pending_response-step :
      (d : Node P) (b : Body P) (c : Ctx P (Nf P))
      → (pending_response d b c).0 ≡ ok metering
      → (m : NtlpMsg P) × Succeeds b c m × (pending_response d b c ≡ accept_response d m c)
  unfolding pending_response
  pending_response-step d (msg m own) c h = cases (c.self.configure_message) refl
    where
      inner :
          (last : NtlpMsg P) (o : Option (Message P))
          → c.self.configure_message ≡ some last
          → matching_response (msg m own) last ≡ o
          → (n : NtlpMsg P) × Succeeds (msg m own) c n
            × (pending_response d (msg m own) c ≡ accept_response d n c)
      inner last none e f = ground arith
      inner last (some q) e f = (
        m,
        (own, last, q, refl, e, f, ground (arith, reject_response-state m c)),
        ground (arith, reject_response-state m c),
      )

      cases :
          (o : Option (NtlpMsg P))
          → c.self.configure_message ≡ o
          → (n : NtlpMsg P) × Succeeds (msg m own) c n
            × (pending_response d (msg m own) c ≡ accept_response d n c)
      cases none e = ground arith
      cases (some last) e = inner last _ e refl
  pending_response-step d _ c h = absurd (other-state d _ c refl h)

  -- After the rule was installed, the response passed on and the timer started.
  abbrev pub forwarded : Node P → NtlpMsg P → PolicyRule P → Ctx P (Nf P) → Ctx P (Nf P)
  forwarded d m result c = record {
    self = record (c.self) { rule = result; state_timer = d.timer_id w.timers };
    world = record w {
      timers = suc w.timers;
      log =
          timer_started (d.timer_id w.timers) c.self.lifetime
          ∷ sent (copy_for_forwarding m)
          ∷ rules_installed c.self.rule
          ∷ w.log;
    };
  }
    where
      w : World P
      w = c.world

  abbrev log_install : Ctx P (Nf P) → Ctx P (Nf P)
  log_install c = record c { world = record w { log = rules_installed (c.self.rule) ∷ w.log } }
    where
      w : World P
      w = c.world

  settle_lem :
      (d : Node P) (m : NtlpMsg P) (r : PolicyRule P) (c : Ctx P (Nf P))
      → (settle d m r (log_install c)).0 ≡ ok metering
      → (get_number_mspec_objects r ≡ get_number_mspec_objects c.self.rule)
        × (settle d m r (log_install c) ≡ (ok metering, forwarded d m r c))
  unfolding settle send_message start_state_timer start_timer copy_for_forwarding
  settle_lem d m r c h = ground (arith, abandon-state d m r (log_install c))

  -- The installer takes every object of the rule.
  abbrev pub Installs : Node P → NtlpMsg P → Ctx P (Nf P) → Ctx P (Nf P) → Type 0
  Installs d m c after =
      (result : PolicyRule P) × (d.installer.install c.self.rule ≡ ok result)
      × (get_number_mspec_objects result ≡ get_number_mspec_objects c.self.rule)
      × (after ≡ forwarded d m result c)

  accept_response_lem :
      (d : Node P) (m : NtlpMsg P) (c : Ctx P (Nf P)) (o : Outcome (PolicyRule P))
      → d.installer.install c.self.rule ≡ o
      → (accept_response d m c).0 ≡ ok metering
      → Installs d m c (accept_response d m c).1
  unfolding accept_response install_policy_rules
  accept_response_lem d m c (ok r) e h =
      (r, e, ground (arith, settle_lem d m r c), ground (arith, settle_lem d m r c))
  accept_response_lem d m c (thrown x) e h = ground arith
  accept_response_lem d m c (fault x) e h = ground arith

  handle_state_pending_lem :
      (d : Node P) (b : Body P) (c : Ctx P (Nf P))
      → (handle_state_pending d b c).0 ≡ ok metering
      → (m : NtlpMsg P) × Succeeds b c m × Installs d m c (handle_state_pending d b c).1
  handle_state_pending_lem d b c h =
      let first = handle_state_pending-step d b c h in
      let second = pending_other-step d b c (rw first h) in
      let (m, succeeds, third) = pending_response-step d b c (rw (sym second ∙ first) h) in
      let all = sym first ∙ second ∙ third in
      (m, succeeds, rw all (accept_response_lem d m c _ refl (rw all at h)))

  process_event-step :
      (d : Node P) (b : Body P) (c c' : Ctx P (Nf P))
      → process_event d b c ≡ (ok tt, c')
      → c.self.state ≢ metering
      → c'.self.state ≡ metering
      → (c.self.state ≡ pending)
        × ((handle_state_pending d b c).0 ≡ ok metering)
        × (let after = (handle_state_pending d b c).1 in
            c' ≡ record after { self = record (after.self) { state = metering } })
  unfolding process_event handle_state
  process_event-step d b c c' e n h = ground (arith, handle_state_close-state d b c)

  -- A forwarder comes to meter only from PENDING by a success response to the CONFIGURE that it
  -- keeps, after the installer took every object of its rule. It passes the response on and
  -- starts its state timer with the lifetime.
  pub forwarder_opens :
      (d : Node P) (b : Body P) (c c' : Ctx P (Nf P))
      → process_event d b c ≡ (ok tt, c')
      → c.self.state ≢ metering
      → c'.self.state ≡ metering
      → (c.self.state ≡ pending)
        × ((m : NtlpMsg P) × (after : Ctx P (Nf P)) × Succeeds b c m
            × Installs d m c after
            × (c' ≡ record after { self = record (after.self) { state = metering } }))
  forwarder_opens d b c c' e n h =
      let s = process_event-step d b c c' e n h in
      let (m, succeeds, inst) = handle_state_pending_lem d b c (s.1) in
      (s.0, (m, _, succeeds, inst, s.2))
