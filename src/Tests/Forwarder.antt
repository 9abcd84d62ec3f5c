-- ===== src/Tests/Forwarder.antt =====
-- The theorems of the forwarder on a small run.
use m_nslp.Prelude.{suc, ◌≡◌, ◌≢◌, refl, arith, true, false, none, some, [], ◌∷◌}
use m_nslp.Map.{insert, assign_all, insert_all}
use m_nslp.Msg.Code
use m_nslp.Msg.Serial.{is_greater_than}
use m_nslp.Msg.Store.{get}
use m_nslp.Msg.Message.{
  configure, Message, get_object, has_msg_sequence_number, get_session_lifetime,
  get_msg_sequence_number, is_success, is_response_to, check_response, check_refresh,
}
use m_nslp.Msg.Message.Laws.{configure_store}
use m_nslp.Msg.Ntlp.{NtlpMsg, copy_for_forwarding, create_response}
use m_nslp.Rule.{no_rule, copy, get_number_mspec_objects, get_number_rule_keys}
use m_nslp.Rule.Nop.{nop_install, nop_remove}
use m_nslp.Event.{Body, msg, timer_event, matching_response}
use m_nslp.Node.{is_sendable, info_valid, send_message, install_policy_rules, start_timer}
use m_nslp.Node.Monad.{Ctx, ok, sent, timer_started}
use m_nslp.Node.Removing.{Removes, after_removal}
use m_nslp.Session.Nf.{Nf, close, pending, metering, start_state_timer}
use m_nslp.Session.Nf.Machine.{
  handle_state_pending, pending_other, pending_response, accept_response, settle,
}
use m_nslp.Session.Nf.Refreshing.{process_event, handle_state}
use m_nslp.Session.Nf.Opening.{Succeeds, Installs, forwarder_opens}
use m_nslp.Session.Nf.Refresh.{repeated_refresh, confirmed, confirmed_session_lost}
use m_nslp.Tests.{net, node, installed, start, packet, request, refresh_for, success_for}

-- A session that waits for the response to its CONFIGURE.
abbrev waiting : Ctx net (Nf net)
waiting = record {
  self = record {
    id = 5;
    msn = 7;
    rule = no_rule;
    state = pending;
    lifetime = 60;
    max_lifetime = 120;
    response_timeout = 120;
    state_timer = 1;
    response_timer = 0;
    ni_mri = some false;
    nr_mri = some true;
    configure_message = some (packet request);
    refresh_message = none;
  };
  world = start;
}

-- A session that meters.
abbrev running : Ctx net (Nf net)
running = record waiting { self = record (waiting.self) { state = metering; rule = installed } }

-- A session that has passed a REFRESH on.
abbrev asking : Ctx net (Nf net)
asking = record running {
  self = record (running.self) {
    msn = 8;
    response_timer = 2;
    refresh_message = some (packet (refresh_for 60 8));
  };
}

abbrev answer : Body net
answer = msg (packet (success_for 7)) false

abbrev opened : Ctx net (Nf net)
opened = (process_event node answer waiting).1

opening_runs :
    (process_event node answer waiting ≡ (ok tt, opened)) × (opened.self.state ≡ metering)
unfolding process_event handle_state handle_state_pending pending_other pending_response
    accept_response settle start_state_timer matching_response has_msg_sequence_number
    get_msg_sequence_number get_object get is_success is_response_to nop_install copy assign_all
    install_policy_rules get_number_mspec_objects send_message start_timer copy_for_forwarding
    is_sendable info_valid check_response
opening_runs = (refl, refl)

forwarder_opens_example :
    (waiting.self.state ≡ pending)
    × ((m : NtlpMsg net) × (after : Ctx net (Nf net)) × Succeeds answer waiting m
        × Installs node m waiting after
        × (opened ≡ record after { self = record (after.self) { state = metering } }))
forwarder_opens_example =
    forwarder_opens node answer waiting opened (opening_runs.0) (λ e. cc) (opening_runs.1)

repeated_refresh_example :
    let once = process_event node (msg (packet (refresh_for 90 8)) false) running in
    let twice = process_event node (msg (packet (refresh_for 90 8)) false) once.1 in
    (once.0 ≡ ok tt)
    × (once.1.world.log
        ≡ timer_started (node.timer_id start.timers) 120
          ∷ sent (copy_for_forwarding (packet (refresh_for 90 8)))
          ∷ start.log)
    × (get_session_lifetime (refresh_for 90 8) ≢ 0 → twice ≡ (ok tt, once.1))
    × (get_session_lifetime (refresh_for 90 8) ≡ 0
        → (twice.0 ≡ ok tt)
          × (twice.1.world.log
              ≡ timer_started (node.timer_id (suc start.timers)) 120
                ∷ sent (copy_for_forwarding (packet (refresh_for 90 8)))
                ∷ once.1.world.log))
unfolding is_greater_than get_session_lifetime get_msg_sequence_number get_object get is_sendable
    check_refresh
repeated_refresh_example =
    repeated_refresh node (packet (refresh_for 90 8)) false (refresh_for 90 8) running refl refl
      refl (omega arith) refl refl

asking_lives : asking.self.lifetime ≢ 0
asking_lives e = cc

-- The response answers the REFRESH that was passed on, and can be sent on.
asking-facts :
    (matching_response (msg (packet (success_for 8)) false) (packet (refresh_for 60 8))
      ≡ some (success_for 8))
    × (is_response_to (success_for 8) (refresh_for 60 8) ≡ true)
    × (is_success (success_for 8) ≡ true)
    × (is_sendable (packet (success_for 8)).body ≡ true)
unfolding matching_response has_msg_sequence_number get_msg_sequence_number get_object get
    is_success is_response_to is_sendable info_valid check_response
asking-facts = (refl, refl, refl, refl)

asking-Removes : Removes node asking.self.rule
unfolding nop_remove get_number_rule_keys copy insert_all insert
asking-Removes = (_, refl, refl)

confirmed_session_lost_example :
    let late =
      process_event node
        (timer_event 2)
        (process_event node (msg (packet (success_for 8)) false) asking).1 in
    (late.0 ≡ ok tt)
    × (late.1.self.state ≡ close)
    × (late.1.world.log
        ≡ sent (
            create_response Code.sc_permanent_failure Code.fail_nr_not_reached
              (packet (refresh_for 60 8)))
          ∷ (after_removal asking.self.rule
              (confirmed node
                (packet (success_for 8))
                false
                (success_for 8)
                asking
                (packet (refresh_for 60 8))
                (refresh_for 60 8)
                refl
                refl
                refl
                (asking-facts.0)
                (asking-facts.1)
                (asking-facts.2)
                (asking-facts.3)
                asking_lives).world).log)
confirmed_session_lost_example =
    confirmed_session_lost node (packet (success_for 8)) false (success_for 8) asking
      (packet (refresh_for 60 8)) (refresh_for 60 8) refl refl refl (asking-facts.0)
      (asking-facts.1) (asking-facts.2) (asking-facts.3) asking_lives asking-Removes

-- A CONFIGURE with a longer lifetime than the maximum.
abbrev long_request : Message net
long_request = record { kind = configure; objects = configure_store net 500 9 1 10 [] }
