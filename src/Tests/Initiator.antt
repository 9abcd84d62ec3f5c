-- ===== src/Tests/Initiator.antt =====
-- The theorems of the initiator on a small run.
use m_nslp.Prelude.{◌+◌, ◌≡◌, ◌<◌, refl, true, none, some, [], ◌∷◌, arith, length, u32_mod}
use m_nslp.Map.{insert, assign_all, insert_all}
use m_nslp.Msg.Serial.{next_msn}
use m_nslp.Msg.Store.{get}
use m_nslp.Msg.Message.{
  get_object, has_msg_sequence_number, get_session_lifetime, get_msg_sequence_number,
  get_mspec_objects, is_success, is_response_to, check_configure,
}
use m_nslp.Rule.{no_rule, copy, get_number_mspec_objects, get_number_rule_keys}
use m_nslp.Rule.Nop.{nop_install, nop_remove}
use m_nslp.Event.{Body, ApiConfigure, msg, api_configure, api_teardown, matching_response}
use m_nslp.Node.{check, is_sendable, install_policy_rules, start_timer}
use m_nslp.Node.Monad.{Ctx, ok, fault, assertion_failed, sent, reported}
use m_nslp.Node.Removing.{Removes, after_removal}
use m_nslp.Session.Ni.{Ni, close, pending, metering, new_ni_session, start_refresh_timer}
use m_nslp.Session.Ni.Machine.{process_event, take_lifetime, ni_machine}
use m_nslp.Session.Ni.Retry.{time_outs, attempts, gives_up}
use m_nslp.Session.Ni.Opening.{Opens, metering_needs_rule}
use m_nslp.Session.Ni.Metering.{farewell_body, farewell, teardown_lem, repeated_response_aborts}
use m_nslp.Session.Ni.Starting.{
  mine_of, others_of, first_body, first_configure, starting_log, start_lem,
}
use m_nslp.Session.{check_participating}
use m_nslp.Session.Placing.{with_objects}
use m_nslp.Tests.{net, node, installed, start, packet, request, success_for}

abbrev new : Ni net
new = new_ni_session node 5 7

abbrev closed : Ctx net (Ni net)
closed = record {
  self = record {
    id = 5;
    msn = 6;
    msg_hop_count = 10;
    rule = no_rule;
    state = close;
    mri = none;
    last_configure = none;
    last_refresh = none;
    lifetime = 0;
    refresh_interval = 20;
    response_timeout = 2;
    configure_counter = 0;
    refresh_counter = 0;
    max_retries = 3;
    response_timer = 0;
    refresh_timer = 0;
  };
  world = start;
}

abbrev asked : ApiConfigure net
asked = record {
  source_address = 1;
  source_port = 1000;
  dest_address = 2;
  dest_port = 2000;
  protocol = 17;
  mspec_objects = 8 ∷ 9 ∷ [];
  lifetime = 60;
  sel_met_entities = 4;
  has_return_queue = true;
}

-- A session that waits for the response to its CONFIGURE.
abbrev waiting : Ctx net (Ni net)
waiting = record closed {
  self = record (closed.self) {
    state = pending;
    mri = some true;
    msn = 7;
    lifetime = 60;
    last_configure = some (packet request);
    response_timer = 1;
  };
}

-- A session that meters.
abbrev running : Ctx net (Ni net)
running = record waiting { self = record (waiting.self) { state = metering; rule = installed } }

few_missing : 300 + length (others_of node asked) < u32_mod
unfolding check check_participating
few_missing = omega arith

start_lem_example :
    let r = process_event node (api_configure asked) closed in
    (r.0 ≡ ok tt)
    × (r.1.self.state ≡ pending)
    × (r.1.self.rule ≡ with_objects node closed.world.keys (mine_of node asked) closed.self.rule)
    × (r.1.self.last_configure ≡ some (first_configure asked closed (others_of node asked)))
    × (r.1.world.log ≡ starting_log node asked closed (others_of node asked))
    × (get_session_lifetime (first_body asked closed (others_of node asked)) ≡ 60)
    × (get_msg_sequence_number (first_body asked closed (others_of node asked)) ≡ next_msn 6)
    × (get_mspec_objects (first_body asked closed (others_of node asked))
        ≡ some (others_of node asked))
start_lem_example =
    start_lem node asked closed refl (omega arith) (omega arith) (omega arith) few_missing

gives_up_example :
    let r = time_outs node 3 1 waiting.world.timers waiting in
    (r.0 ≡ ok tt)
    × (r.1.self.state ≡ close)
    × (r.1.world.log
        ≡ reported "got no response for our Configure"
          ∷ attempts node (packet request) 2 3 waiting.world.timers waiting.world.log)
    × (r.1.world.timers ≡ waiting.world.timers + 3)
unfolding is_sendable check_configure
gives_up_example =
    gives_up 3 node (packet request) waiting refl refl refl (omega arith) (omega arith)

-- The response to the CONFIGURE.
abbrev answer : Body net
answer = msg (packet (success_for 7)) true

abbrev opened : Ctx net (Ni net)
opened = (process_event node answer waiting).1

opening_runs :
    (process_event node answer waiting ≡ (ok tt, opened)) × (opened.self.state ≡ metering)
unfolding ni_machine nop_install matching_response has_msg_sequence_number get_msg_sequence_number
    get_object get is_success is_response_to start_timer install_policy_rules
    get_number_mspec_objects start_refresh_timer take_lifetime get_session_lifetime copy assign_all
opening_runs = (refl, refl)

metering_needs_rule_example :
    (waiting.self.state ≡ pending)
    × ((after : Ni net) × Opens node answer waiting after
        × (opened.self ≡ record after { state = metering }))
metering_needs_rule_example =
    metering_needs_rule node answer waiting opened opening_runs.0 (λ e. cc) opening_runs.1

repeated_response_aborts_example : (process_event node answer opened).0 ≡ fault assertion_failed
repeated_response_aborts_example =
    repeated_response_aborts node answer waiting opened opening_runs.0 refl refl opening_runs.1

running-Removes : Removes node running.self.rule
unfolding nop_remove get_number_rule_keys copy insert_all insert
running-Removes = (_, refl, refl)

teardown_lem_example :
    let r = process_event node api_teardown running in
    (r.0 ≡ ok tt)
    × (r.1.self.state ≡ close)
    × (r.1.world.log
        ≡ sent (farewell running.self true) ∷ (after_removal running.self.rule start).log)
    × (get_session_lifetime (farewell_body {P = net} (next_msn 7)) ≡ 0)
    × (get_msg_sequence_number (farewell_body {P = net} (next_msn 7)) ≡ next_msn 7)
teardown_lem_example = teardown_lem node running true (λ e. cc) refl running-Removes
