-- ===== src/Tests/Responder.antt =====
-- The theorems of the responder on a small run.
use m_nslp.Prelude.{◌≡◌, refl, true, false, ◌∷◌, arith}
use m_nslp.Map.{insert, assign_all, insert_all}
use m_nslp.Msg.Serial.{is_greater_than}
use m_nslp.Msg.Store.{get}
use m_nslp.Msg.Message.{
  get_object, has_msg_sequence_number, get_session_lifetime, get_msg_sequence_number,
  get_mspec_objects, mspecs_of, check_response, set_information_code, set_msg_sequence_number,
  set_session_lifetime,
}
use m_nslp.Msg.Store.{set}
use m_nslp.Msg.Ntlp.{create_response, create_success_response}
use m_nslp.Rule.{no_rule, copy, get_number_mspec_objects, get_number_rule_keys}
use m_nslp.Rule.Nop.{nop_install, nop_remove}
use m_nslp.Event.{msg}
use m_nslp.Node.{is_sendable, info_valid, send_message, install_policy_rules, start_timer}
use m_nslp.Node.Monad.{Ctx, ok, sent}
use m_nslp.Node.Removing.{Removes, after_removal}
use m_nslp.Session.{place, check_preconditions, check_lifetime, check_authorization}
use m_nslp.Session.Nr.{
  Nr, close, metering, place_for, place_objects, save_mt_policy_rule, start_state_timer,
  begin_metering, settle, install_rule, install_placed, initiate, open_request,
}
use m_nslp.Session.Nr.Machine.{process_event, handle_state, handle_state_close}
use m_nslp.Session.Nr.Lifetime.{process_event-Bounded}
use m_nslp.Session.Nr.Bounds.{Bounded}
use m_nslp.Session.Nr.Opening.{Opens, metering_needs_configure}
use m_nslp.Session.Nr.Refresh.{
  prolonged, newer_refresh_prolongs, unauthorized_prolongs, zero_refresh_terminates,
}
use m_nslp.Tests.{net, node, installed, start, packet, request, refresh_for}

abbrev closed : Ctx net (Nr net)
closed = record {
  self = record {
    id = 5;
    msn = 0;
    rule = no_rule;
    state = close;
    lifetime = 0;
    max_lifetime = 120;
    state_timer = 0;
  };
  world = start;
}

-- A session that meters and has taken the sequence number 7.
abbrev running : Ctx net (Nr net)
running = record closed {
  self = record (closed.self) {
    state = metering;
    msn = 7;
    lifetime = 60;
    rule = installed;
    state_timer = 1;
  };
}

process_event-Bounded_example :
    Bounded running.self (process_event node (msg (packet (refresh_for 500 8)) true) running).1.self
process_event-Bounded_example =
    process_event-Bounded node (msg (packet (refresh_for 500 8)) true) running (omega arith)

abbrev opened : Ctx net (Nr net)
opened = (process_event node (msg (packet request) true) closed).1

opening_runs :
    (process_event node (msg (packet request) true) closed ≡ (ok tt, opened))
    × (opened.self.state ≡ metering)
unfolding process_event handle_state handle_state_close open_request initiate install_placed
    install_rule settle begin_metering save_mt_policy_rule place_objects place_for start_state_timer
    check_preconditions check_lifetime check_authorization get_session_lifetime
    get_msg_sequence_number get_mspec_objects mspecs_of get_object get nop_install copy assign_all
    install_policy_rules get_number_mspec_objects send_message start_timer place create_response
    create_success_response is_sendable info_valid check_response set_information_code
    set_msg_sequence_number set_session_lifetime set has_msg_sequence_number
opening_runs = (refl, refl)

metering_needs_configure_example :
    (after : Ctx net (Nr net)) × Opens node (msg (packet request) true) closed after
    × (opened ≡ record after { self = record (after.self) { state = metering } })
metering_needs_configure_example =
    metering_needs_configure node (msg (packet request) true) closed opened opening_runs.0 refl
      opening_runs.1

newer_refresh_prolongs_example :
    process_event node (msg (packet (refresh_for 90 8)) true) running ≡ (
      ok tt,
      prolonged node (packet (refresh_for 90 8)) true (refresh_for 90 8) running refl refl 90,
    )
unfolding is_greater_than get_session_lifetime get_msg_sequence_number get_object get
    check_preconditions check_lifetime check_authorization
newer_refresh_prolongs_example =
    newer_refresh_prolongs node (packet (refresh_for 90 8)) true (refresh_for 90 8) running refl
      refl 90 refl refl (λ e. cc)

unauthorized_prolongs_example :
    process_event
      (record node { is_authorized = λ m. false })
      (msg (packet (refresh_for 500 8)) true)
      running
    ≡ (
      ok tt,
      prolonged
          (record node { is_authorized = λ m. false })
          (packet (refresh_for 500 8))
          true
          (refresh_for 500 8)
          running
          refl
          refl
          120,
    )
unfolding is_greater_than get_session_lifetime get_msg_sequence_number get_object get
unauthorized_prolongs_example =
    unauthorized_prolongs (record node { is_authorized = λ m. false }) (packet (refresh_for 500 8))
      true (refresh_for 500 8) running refl refl (omega arith) refl (λ e. cc)

running-Removes : Removes node running.self.rule
unfolding nop_remove get_number_rule_keys copy insert_all insert
running-Removes = (_, refl, refl)

zero_refresh_terminates_example :
    let r = process_event node (msg (packet (refresh_for 0 8)) true) running in
    (r.0 ≡ ok tt)
    × (r.1.self.state ≡ close)
    × (r.1.world.log
        ≡ sent (create_success_response 0 (packet (refresh_for 0 8)))
          ∷ (after_removal running.self.rule start).log)
unfolding is_greater_than get_session_lifetime get_msg_sequence_number get_object get
zero_refresh_terminates_example =
    zero_refresh_terminates node (packet (refresh_for 0 8)) true (refresh_for 0 8) running refl refl
      refl refl refl running-Removes
