-- ===== src/Session/Ni/Machine.antt =====
-- src/ni_session.cpp: the state machine of an initiator.
use m_nslp.Prelude.{◌+◌, Bool, true, false, none, some, ◌==◌, ltb, u32, if◌then◌else◌}
use m_nslp.Platform.{Platform}
use m_nslp.Msg.Message.{Message, get_session_lifetime, is_success}
use m_nslp.Rule.{PolicyRule, get_number_mspec_objects}
use m_nslp.Event.{
  Body, ApiConfigure, api_configure, is_timer_of, is_timer, is_api_teardown, is_no_next_node_found,
  matching_response,
}
use m_nslp.Node.{
  Node, send_message, report_async_event, start_timer, install_policy_rules, remove_installed,
}
use m_nslp.Node.Monad.{M, no_return, returned, ◌>>=◌, ◌>>◌, pure, stop, act, get_self, put_self}
use m_nslp.Session.Ni.{
  Ni, State, close, pending, metering, cal_refresh_interval, set_up, setup_session,
  configure_message, build_configure_message, build_refresh_message, stored, answers_body,
  start_response_timer, start_refresh_timer,
}

module _ {P : Platform} where
  -- handle_state_close, for an API configure event.
  unfoldable pub start_session : Node P → ApiConfigure P → M P (Ni P) State
  unfolding send_message start_response_timer start_timer
  start_session d e = do
    missing ← setup_session d e
    m ← build_configure_message e missing
    s ← get_self
    put_self (record s { last_configure = some m })
    send_message m
    start_response_timer d
    (if e.has_return_queue then act (returned s.id) else pure tt)
    pure pending

  unfoldable pub handle_state_close : Node P → Body P → M P (Ni P) State
  handle_state_close d (api_configure e) = start_session d e
  handle_state_close d _ = pure close

  -- The response timer of a pending session.
  unfoldable pub retry_configure : Node P → M P (Ni P) State
  unfolding send_message start_response_timer start_timer report_async_event
  retry_configure d = do
    s ← get_self
    if ltb s.configure_counter s.max_retries
        then (do
          put_self (record s { configure_counter = u32 (s.configure_counter + 1) })
          m ← stored s.last_configure
          send_message m
          start_response_timer d
          pure pending)
        else (do report_async_event "got no response for our Configure"; pure close)

  unfoldable pub teardown_pending : Node P → M P (Ni P) State
  unfolding remove_installed build_refresh_message send_message
  teardown_pending d = do
    s ← get_self
    put_self (record s { lifetime = 0; last_configure = none })
    remove_installed d s.rule
    m ← build_refresh_message
    send_message m
    pure close

  -- A success response may bring another lifetime.
  unfoldable pub take_lifetime : Message P → Ni P → Ni P
  take_lifetime resp s = if get_session_lifetime resp == s.lifetime then s else record s {
    lifetime = get_session_lifetime resp;
    refresh_interval = cal_refresh_interval (get_session_lifetime resp);
  }

  -- Not every object could be installed: the function ends without a `return`.
  unfoldable pub abandon : Node P → PolicyRule P → M P (Ni P) State
  unfolding remove_installed build_refresh_message send_message
  abandon d result = do
    s ← get_self
    put_self (record s { lifetime = 0; last_configure = none; rule = result })
    remove_installed d result
    m ← build_refresh_message
    send_message m
    stop no_return

  unfoldable pub settle : Node P → PolicyRule P → M P (Ni P) State
  settle d result = do
    s ← get_self
    if get_number_mspec_objects result == get_number_mspec_objects s.rule
        then (do put_self (record s { rule = result; configure_counter = 0 }); pure metering)
        else abandon d result

  unfoldable pub install_rule : Node P → M P (Ni P) State
  unfolding install_policy_rules
  install_rule d = do s ← get_self; result ← install_policy_rules d s.rule; settle d result

  -- A success response: its lifetime is taken over, and the rule is installed.
  unfoldable pub open_session : Node P → Message P → M P (Ni P) State
  unfolding report_async_event start_refresh_timer start_timer take_lifetime
  open_session d resp = do
    report_async_event "CONFIGURE session initiated"
    s ← get_self
    put_self (take_lifetime resp (record s { response_timer = 0 }))
    start_refresh_timer d
    install_rule d

  unfoldable pub pending_response : Node P → Body P → M P (Ni P) State
  pending_response d b = do
    s ← get_self
    sent ← stored s.last_configure
    elim (matching_response b sent) [
      | none ↦ pure pending
      | some resp ↦
          if answers_body resp sent.body
          then (if is_success resp
              then open_session d resp
              else (do report_async_event "cannot initiate Configure session"; pure close))
          else pure pending
    ]

  unfoldable pub handle_state_pending : Node P → Body P → M P (Ni P) State
  handle_state_pending d b c =
      if is_timer_of b c.self.response_timer
      then retry_configure d c
      else if is_no_next_node_found b
      then pure close c
      else if is_api_teardown b
      then teardown_pending d c
      else if is_timer b
      then pure pending c
      else pending_response d b c

  unfoldable pub refresh_session : Node P → M P (Ni P) State
  unfolding build_refresh_message send_message start_response_timer start_timer
  refresh_session d = do
    m ← build_refresh_message
    s ← get_self
    put_self (record s { last_refresh = some m })
    send_message m
    s ← get_self
    put_self (record s { refresh_counter = 0 })
    start_response_timer d
    pure metering

  unfoldable pub retry_refresh : Node P → M P (Ni P) State
  unfolding send_message start_response_timer start_timer remove_installed report_async_event
  retry_refresh d = do
    s ← get_self
    if ltb s.refresh_counter s.max_retries
        then (do
          put_self (record s { refresh_counter = u32 (s.refresh_counter + 1) })
          m ← stored s.last_refresh
          send_message m
          start_response_timer d
          pure metering)
        else (do
          remove_installed d s.rule
          report_async_event "got no response to our REFRESH message"
          pure close)

  unfoldable pub teardown_metering : Node P → M P (Ni P) State
  unfolding remove_installed build_refresh_message send_message
  teardown_metering d = do
    s ← get_self
    put_self (record s { lifetime = 0; last_refresh = none })
    remove_installed d s.rule
    m ← build_refresh_message
    send_message m
    pure close

  unfoldable pub refreshed : Node P → M P (Ni P) State
  unfolding report_async_event start_refresh_timer start_timer
  refreshed d = do
    report_async_event "REFRESH successful"
    s ← get_self
    put_self (record s { response_timer = 0 })
    start_refresh_timer d
    s ← get_self
    put_self (record s { refresh_counter = 0 })
    pure metering

  unfoldable pub session_died : Node P → M P (Ni P) State
  unfolding remove_installed report_async_event
  session_died d = do
    s ← get_self
    remove_installed d s.rule
    report_async_event "REFRESH session died"
    pure close

  unfoldable pub metering_response : Node P → Body P → M P (Ni P) State
  metering_response d b = do
    s ← get_self
    sent ← stored s.last_refresh
    elim (matching_response b sent) [
      | none ↦ pure metering
      | some resp ↦
          if answers_body resp sent.body
          then (if is_success resp then refreshed d else session_died d)
          else pure metering
    ]

  unfoldable pub handle_state_metering : Node P → Body P → M P (Ni P) State
  handle_state_metering d b c =
      if is_timer_of b c.self.refresh_timer
      then refresh_session d c
      else if is_timer_of b c.self.response_timer
      then retry_refresh d c
      else if is_api_teardown b
      then teardown_metering d c
      else if is_timer b
      then pure metering c
      else metering_response d b c

  unfoldable pub handle_state : State → Node P → Body P → M P (Ni P) State
  handle_state close d b = handle_state_close d b
  handle_state pending d b = handle_state_pending d b
  handle_state metering d b = handle_state_metering d b

  -- The handler's result is the new state.
  unfoldable pub process_event : Node P → Body P → M P (Ni P) (Unit {0})
  process_event d b = do
    s ← get_self
    next ← handle_state s.state d b
    s ← get_self
    put_self (record s { state = next })

  unfoldable pub is_final : Ni P → Bool
  is_final s = elim (s.state) [ close ↦ true | _ ↦ false ]

-- To unfold this is to unfold the whole machine.
unfoldable pub ni_machine : Unit {0}
unfolding setup_session set_up build_configure_message configure_message process_event handle_state
    handle_state_close handle_state_pending pending_response handle_state_metering metering_response
    start_session retry_configure teardown_pending open_session install_rule settle abandon
    refresh_session retry_refresh teardown_metering refreshed session_died
ni_machine = tt
