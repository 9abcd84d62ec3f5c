-- ===== src/Session/Ni/Opening.antt =====
-- How an initiator comes to meter: the rule of the session is installed.
use m_nslp.Prelude.{◌≡◌, ◌≢◌, refl, ap, ◌∙◌, true, Option, none, some, ◌∷◌, arith}
use m_nslp.Platform.{Platform}
use m_nslp.Msg.Message.{Message, is_success}
use m_nslp.Msg.Ntlp.{NtlpMsg}
use m_nslp.Rule.{PolicyRule, get_number_mspec_objects}
use m_nslp.Event.{Body, matching_response}
use m_nslp.Node.{Node, report_async_event}
use m_nslp.Node.Monad.{Ctx, World, rules_installed, Outcome, ok, thrown, fault}
use m_nslp.Session.Ni.{Ni, pending, metering}
use m_nslp.Session.Ni.Machine.{
  process_event, handle_state, handle_state_pending, take_lifetime, open_session, install_rule,
  settle, abandon, pending_response,
}
use m_nslp.Session.Ni.Pending.{
  SucceedsFor, handle_state_close-state, retry_configure-state, teardown_pending-state,
  handle_state_pending-state,
}

module _ {P : Platform} where
  -- What a session that has just begun to meter holds.
  settle_lem :
      (d : Node P) (result : PolicyRule P) (c : Ctx P (Ni P))
      → (settle d result c).0 ≡ ok metering
      → (get_number_mspec_objects result ≡ get_number_mspec_objects c.self.rule)
        × ((settle d result c).1.self ≡ record (c.self) { rule = result; configure_counter = 0 })
  unfolding settle abandon
  settle_lem d result c h = ground arith

  -- The installer took every object of the rule, and the session has what it returned.
  abbrev pub Installed : Node P → Ni P → Ni P → Type 0
  Installed d before after =
      (result : PolicyRule P) × (d.installer.install before.rule ≡ ok result)
      × (get_number_mspec_objects result ≡ get_number_mspec_objects before.rule)
      × (after ≡ record before { rule = result; configure_counter = 0 })

  abbrev log_install : Ctx P (Ni P) → Ctx P (Ni P)
  log_install c = record c { world = record w { log = rules_installed (c.self.rule) ∷ w.log } }
    where
      w : World P
      w = c.world

  install_rule-ok :
      (d : Node P) (c : Ctx P (Ni P)) (result : PolicyRule P)
      → d.installer.install c.self.rule ≡ ok result
      → install_rule d c ≡ settle d result (log_install c)
  unfolding install_rule
  install_rule-ok d c result e = ground arith

  install_rule-cases :
      (d : Node P) (c : Ctx P (Ni P)) (o : Outcome (PolicyRule P))
      → d.installer.install c.self.rule ≡ o
      → (install_rule d c).0 ≡ ok metering
      → Installed d c.self (install_rule d c).1.self
  unfolding install_rule
  install_rule-cases d c (ok result) e h =
      let f = install_rule-ok d c result e in
      let l = settle_lem d result (log_install c) (rw f at h) in
      (result, e, l.0, ap (λ r. r.1.self) f ∙ l.1)
  install_rule-cases d c (thrown x) e h = ground arith
  install_rule-cases d c (fault x) e h = ground arith

  -- The session when a success response has been taken in, before the rule is installed.
  abbrev pub opening : Node P → Message P → Ctx P (Ni P) → Ni P
  opening d resp c = record (take_lifetime resp (record (c.self) { response_timer = 0 })) {
    refresh_timer = d.timer_id (c.world.timers);
  }

  open_session-cases :
      (d : Node P) (resp : Message P) (c : Ctx P (Ni P))
      → (open_session d resp c).0 ≡ ok metering
      → Installed d (opening d resp c) (open_session d resp c).1.self
  unfolding open_session
  open_session-cases d resp c h = install_rule-cases d _ _ refl h

  pending_response-step :
      (d : Node P) (b : Body P) (c : Ctx P (Ni P)) (m : NtlpMsg P) (resp : Message P)
      → c.self.last_configure ≡ some m
      → matching_response b m ≡ some resp
      → (pending_response d b c).0 ≡ ok metering
      → (is_success resp ≡ true) × (pending_response d b c ≡ open_session d resp c)
  unfolding pending_response report_async_event
  pending_response-step d b c m resp e f h = ground arith

  -- How an event opens the session: it is a success response to the stored CONFIGURE, and the
  -- rule of the session is installed in full.
  abbrev pub Opens : Node P → Body P → Ctx P (Ni P) → Ni P → Type 0
  Opens d b c after =
      (m : NtlpMsg P) × (resp : Message P) × (c.self.last_configure ≡ some m)
      × (matching_response b m ≡ some resp)
      × (is_success resp ≡ true)
      × Installed d (opening d resp c) after

  pending_response-Opens :
      (d : Node P) (b : Body P) (c : Ctx P (Ni P)) (o : Option (NtlpMsg P))
      → c.self.last_configure ≡ o
      → SucceedsFor b o
      → (pending_response d b c).0 ≡ ok metering
      → Opens d b c (pending_response d b c).1.self
  pending_response-Opens d b c none e s h = absurd s
  pending_response-Opens d b c (some m) e s h =
      let step = pending_response-step d b c m s.0 e s.1 h in
      (m, s.0, e, s.1, step.0, rw (step.1) (open_session-cases d (s.0) c (rw (step.1) at h)))

  handle_state_pending-step :
      (d : Node P) (b : Body P) (c : Ctx P (Ni P))
      → (handle_state_pending d b c).0 ≡ ok metering
      → handle_state_pending d b c ≡ pending_response d b c
  unfolding handle_state_pending
  handle_state_pending-step d b c h =
      ground (arith, retry_configure-state d c, teardown_pending-state d c)

  handle_state_pending-Opens :
      (d : Node P) (b : Body P) (c : Ctx P (Ni P))
      → (handle_state_pending d b c).0 ≡ ok metering
      → Opens d b c (handle_state_pending d b c).1.self
  handle_state_pending-Opens d b c h =
      let e = handle_state_pending-step d b c h in
      rw e (pending_response-Opens d b c _ refl (handle_state_pending-state d b c h) (rw e at h))

  process_event-step :
      (d : Node P) (b : Body P) (c c' : Ctx P (Ni P))
      → process_event d b c ≡ (ok tt, c')
      → c.self.state ≢ metering
      → c'.self.state ≡ metering
      → (c.self.state ≡ pending)
        × ((handle_state_pending d b c).0 ≡ ok metering)
        × (c'.self ≡ record ((handle_state_pending d b c).1.self) { state = metering })
  unfolding process_event handle_state
  process_event-step d b c c' e n h = ground (arith, handle_state_close-state d b c)

  -- A session comes to meter only from PENDING, and only by a success response to the CONFIGURE
  -- that it stored, after the installer took its rule with every object of it; it then has the
  -- rule that the installer returned, and no retries counted.
  pub metering_needs_rule :
      (d : Node P) (b : Body P) (c c' : Ctx P (Ni P))
      → process_event d b c ≡ (ok tt, c')
      → c.self.state ≢ metering
      → c'.self.state ≡ metering
      → (c.self.state ≡ pending)
        × ((after : Ni P) × Opens d b c after × (c'.self ≡ record after { state = metering }))
  metering_needs_rule d b c c' e n h =
      let s = process_event-step d b c c' e n h in
      (s.0, (_, handle_state_pending-Opens d b c (s.1), s.2))
