-- ===== src/Session/Nr/Machine.antt =====
-- src/nr_session.cpp: the state machine of a responder.
use m_nslp.Prelude.{ℕ, Bool, true, false, none, some, ◌==◌, if◌then◌else◌}
use m_nslp.Platform.{Platform}
use m_nslp.Msg.Serial.{is_greater_than}
use m_nslp.Msg.Message.{Message, configure, refresh, get_session_lifetime, get_msg_sequence_number}
use m_nslp.Msg.Ntlp.{NtlpMsg, create_success_response}
use m_nslp.Event.{Body, msg, get_message, is_timer_of}
use m_nslp.Node.{Node, send_message, report_async_event, remove_installed}
use m_nslp.Node.Monad.{M, assertion_failed, ◌>>=◌, ◌>>◌, pure, stop, get_self, put_self}
use m_nslp.Session.{accept, refuse, send_error, check_preconditions}
use m_nslp.Session.Nr.{Nr, State, close, pending, metering, start_state_timer, open_request}

module _ {P : Platform} where
  unfoldable pub handle_state_close : Node P → Body P → M P (Nr P) State
  handle_state_close d (msg m own) = elim (get_message configure (msg m own)) [
    | some c ↦ open_request d m c
    | none ↦ pure close
  ]
  handle_state_close d _ = pure close

  -- A new REFRESH that passed the checks.
  unfoldable pub prolong : Node P → NtlpMsg P → ℕ → ℕ → M P (Nr P) State
  prolong d m lifetime msn = do
    s ← get_self
    put_self (record s { lifetime = lifetime; msn = msn })
    send_message (create_success_response lifetime m)
    start_state_timer d lifetime
    pure metering

  -- A new REFRESH with lifetime 0.
  unfoldable pub terminate : Node P → NtlpMsg P → M P (Nr P) State
  terminate d m = do
    s ← get_self
    remove_installed d s.rule
    send_message (create_success_response 0 m)
    put_self (record s { state_timer = 0 })
    pure close

  unfoldable pub answer_refresh : Node P → NtlpMsg P → ℕ → ℕ → M P (Nr P) State
  answer_refresh d m lifetime msn = do
    s ← get_self
    if is_greater_than msn s.msn
        then (if lifetime == 0 then terminate d m else prolong d m lifetime msn)
        else pure metering

  unfoldable pub metering_refresh : Node P → NtlpMsg P → Message P → M P (Nr P) State
  metering_refresh d m r = do
    s ← get_self
    elim (check_preconditions d m (get_session_lifetime r) s.max_lifetime) [
      | refuse e ↦ (do send_error e m; pure metering)
      | accept lifetime ↦ answer_refresh d m lifetime (get_msg_sequence_number r)
    ]

  -- The session was not refreshed in time.
  unfoldable pub expire : Node P → M P (Nr P) State
  expire d = do
    s ← get_self
    remove_installed d s.rule
    report_async_event "session timed out"
    pure close

  unfoldable pub metering_other : Node P → Body P → M P (Nr P) State
  metering_other d b c = if is_timer_of b c.self.state_timer then expire d c else pure metering c

  unfoldable pub handle_state_metering : Node P → Body P → M P (Nr P) State
  handle_state_metering d (msg m own) = elim (get_message refresh (msg m own)) [
    | some r ↦ metering_refresh d m r
    | none ↦ pure metering
  ]
  handle_state_metering d b = metering_other d b

  unfoldable pub handle_state : State → Node P → Body P → M P (Nr P) State
  handle_state close d b = handle_state_close d b
  handle_state pending d b = stop assertion_failed
  handle_state metering d b = handle_state_metering d b

  unfoldable pub process_event : Node P → Body P → M P (Nr P) (Unit {0})
  process_event d b = do
    s ← get_self
    next ← handle_state s.state d b
    s ← get_self
    put_self (record s { state = next })

  unfoldable pub is_final : Nr P → Bool
  is_final s = elim (s.state) [ close ↦ true | _ ↦ false ]
