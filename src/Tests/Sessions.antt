-- ===== src/Tests/Sessions.antt =====
-- The theorems of the session table on a small run.
use m_nslp.Prelude.{ℕ, suc, ◌≡◌, ◌⊎◌, refl, true, none, some, [], ◌∷◌, arith}
use m_nslp.Map.{find, assign, erase, assign_all, insert_all}
use m_nslp.Msg.Store.{get, set}
use m_nslp.Msg.Message.{
  get_object, has_msg_sequence_number, get_session_lifetime, get_msg_sequence_number,
  get_mspec_objects, mspecs_of, check_response, set_information_code, set_msg_sequence_number,
  set_session_lifetime,
}
use m_nslp.Msg.Ntlp.{create_response, create_success_response}
use m_nslp.Rule.{no_rule, copy, get_number_mspec_objects}
use m_nslp.Rule.Nop.{nop_install}
use m_nslp.Event.{Event, msg}
use m_nslp.Node.{is_sendable, info_valid, send_message, install_policy_rules, start_timer}
use m_nslp.Node.Monad.{Ctx, ok}
use m_nslp.Session.{place, check_preconditions, check_lifetime, check_authorization}
use m_nslp.Session.Nr.{
  metering, new_nr_session, place_for, place_objects, save_mt_policy_rule, start_state_timer,
  begin_metering, settle, install_rule, install_placed, initiate, open_request,
}
use m_nslp.Session.Nr.Machine
use m_nslp.Manager.{AnySession, nr, Table, is_final, create_unique_id, create_nr_session}
use m_nslp.Manager.Unique.{AllUsed, FindsAfter, create_unique_id_lem}
use m_nslp.Dispatcher.{process, deliver, create_session, run_created, run_session, process_session}
use m_nslp.Dispatcher.Sessions.{IsLive, process-IsLive, process-others}
use m_nslp.Dispatcher.Roles.{Reason, session_type, process-Reason}
use m_nslp.Tests.{net, node, start, packet, request}

-- A responder's session.
abbrev other : AnySession net
other = nr record {
  id = 3;
  msn = 7;
  rule = no_rule;
  state = metering;
  lifetime = 60;
  max_lifetime = 120;
  state_timer = 1;
}

abbrev table : Table net
table = (3, other) ∷ []

abbrev busy : Ctx net (Table net)
busy = record { self = table; world = start }

-- A CONFIGURE for a session that is not in the table.
abbrev configured : Event net
configured = record { session_id = some 5; body = msg (packet request) true }

abbrev created : AnySession net
created = nr record {
  id = 5;
  msn = 7;
  rule = no_rule;
  state = metering;
  lifetime = 60;
  max_lifetime = 120;
  state_timer = 1;
}

process_runs :
    ((process node configured busy).0 ≡ ok tt)
    × (find 5 (process node configured busy).1.self ≡ some created)
unfolding process deliver create_session run_created run_session process_session create_nr_session
    new_nr_session find assign erase is_final Machine.is_final Machine.process_event
    Machine.handle_state Machine.handle_state_close open_request initiate install_placed
    install_rule settle begin_metering save_mt_policy_rule place_objects place_for start_state_timer
    check_preconditions check_lifetime check_authorization get_session_lifetime
    get_msg_sequence_number get_mspec_objects mspecs_of get_object get nop_install copy assign_all
    install_policy_rules get_number_mspec_objects send_message start_timer place create_response
    create_success_response is_sendable info_valid check_response set_information_code
    set_msg_sequence_number set_session_lifetime set has_msg_sequence_number insert_all
process_runs = (refl, refl)

busy-IsLive : IsLive table
unfolding find is_final Machine.is_final
busy-IsLive = record { sorted = tt; live = λ i s f. ground arith }

process-IsLive_example : IsLive (process node configured busy).1.self
process-IsLive_example = process-IsLive node configured busy busy-IsLive process_runs.0

process-others_example : find 3 (process node configured busy).1.self ≡ some other
unfolding find
process-others_example = process-others node configured busy 3 other tt (λ e. ground arith) refl

process-Reason_example : Reason configured 5 (session_type created)
unfolding find
process-Reason_example = process-Reason node configured busy 5 created tt refl process_runs.1

create_unique_id_lem_example :
    ((k : ℕ) × FindsAfter 2 (λ i. suc i) 2 table k)
    ⊎ (AllUsed (λ i. suc i) 2 2 table × (create_unique_id 2 (λ i. suc i) 2 table ≡ none))
create_unique_id_lem_example = create_unique_id_lem 2 (λ i. suc i) 2 table
