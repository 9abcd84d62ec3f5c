-- ===== src/Session/Nf/Machine.antt =====
-- src/nf_session.cpp: the state machine of a forwarder.
use m_nslp.Prelude.{Bool, false, ◌&&◌, ◌||◌, Option, none, some, ◌==◌, ltb, if◌then◌else◌}
use m_nslp.Platform.{Platform}
use m_nslp.Msg.Code
use m_nslp.Msg.Message.{
  Message, configure, get_session_lifetime, get_msg_sequence_number, is_success, is_response_to,
}
use m_nslp.Msg.Ntlp.{NtlpMsg, copy_for_forwarding, create_response}
use m_nslp.Rule.{PolicyRule, get_number_mspec_objects}
use m_nslp.Event.{
  Body, msg, get_message, is_timer_of, is_timer, is_no_next_node_found, matching_response,
}
use m_nslp.Node.{Node, send_message, install_policy_rules, remove_installed}
use m_nslp.Node.Monad.{
  M, assertion_failed, no_return, ◌>>=◌, ◌>>◌, pure, stop, get_self, put_self, catch_errors,
}
use m_nslp.Session.{send_error, accept, refuse, check_preconditions, check_authorization}
use m_nslp.Session.Nf.{
  Nf, State, close, pending, metering, set_pc_mri, set_mt_policy_rule, build_configure_message,
  build_teardown_message, stored, start_state_timer,
}

module _ {P : Platform} where
  -- The block of process_state_close inside `try`.
  unfoldable pub set_up : Node P → NtlpMsg P → Message P → M P (Nf P) State
  set_up d m c = do
    set_pc_mri m.mri
    missing ← set_mt_policy_rule d c
    out ← build_configure_message c missing
    send_message out
    s ← get_self
    start_state_timer d s.lifetime
    pure pending

  -- process_state_close, for the message of the event and its body.
  unfoldable pub process_state_close : Node P → NtlpMsg P → Message P → M P (Nf P) State
  process_state_close d m c = do
    s ← get_self
    put_self (record s { configure_message = some m })
    catch_errors (set_up d m c)
        (λ severity code. do send_message (create_response severity code m); pure close)

  unfoldable pub open_request : Node P → NtlpMsg P → Message P → M P (Nf P) State
  open_request d m c = do
    s ← get_self
    put_self (record s {
      max_lifetime = d.nf_max_session_lifetime;
      response_timeout = d.nf_max_session_lifetime;
    })
    elim (check_preconditions d m (get_session_lifetime c) d.nf_max_session_lifetime) [
      | refuse e ↦ (do send_error e m; pure close)
      | accept lifetime ↦ if lifetime == 0 then pure close else (do
        s ← get_self
        put_self (record s { lifetime = lifetime; msn = get_msg_sequence_number c })
        process_state_close d m c)
    ]

  -- The message of an event that the predicates have found to hold one.
  abbrev pub ntlp_msg_of : Body P → Option (NtlpMsg P)
  ntlp_msg_of (msg m _) = some m
  ntlp_msg_of _ = none

  -- An event of another kind runs off the end of the function.
  unfoldable pub handle_state_close : Node P → Body P → M P (Nf P) State
  handle_state_close d (msg m own) = elim (get_message configure (msg m own)) [
    | some c ↦ open_request d m c
    | none ↦ stop no_return
  ]
  handle_state_close d _ = stop no_return

  -- Another CONFIGURE while the session is pending.
  unfoldable pub repeat_request : Node P → NtlpMsg P → Message P → Message P → M P (Nf P) State
  repeat_request d m c previous =
      if ltb (get_msg_sequence_number previous) (get_msg_sequence_number c)
        && get_session_lifetime c == 0
      then (do
        s ← get_self
        put_self (record s { state_timer = 0 })
        send_message (copy_for_forwarding m)
        pure close)
      else if get_msg_sequence_number c == get_msg_sequence_number previous
      then (do
        send_message (copy_for_forwarding m)
        s ← get_self
        start_state_timer d s.response_timeout
        pure pending)
      else (do
        s ← get_self
        put_self (record s { lifetime = get_session_lifetime c; msn = get_msg_sequence_number c })
        process_state_close d m c)

  unfoldable pub pending_configure : Node P → NtlpMsg P → Message P → M P (Nf P) State
  pending_configure d m c = do
    s ← get_self
    last ← stored s.configure_message
    elim (get_message configure (msg last false)) [
      | none ↦ stop assertion_failed
      | some previous ↦ elim (check_authorization d m) [
        | some e ↦ (do send_error e m; pure pending)
        | none ↦ repeat_request d m c previous
      ]
    ]

  -- The next node cannot be reached, or did not answer in time.
  unfoldable pub give_up : M P (Nf P) State
  give_up = do
    s ← get_self
    latest ← stored s.configure_message
    send_message (create_response Code.sc_permanent_failure Code.fail_nr_not_reached latest)
    pure close

  -- Not every object could be installed.
  unfoldable pub abandon : Node P → NtlpMsg P → PolicyRule P → M P (Nf P) State
  abandon d m result = do
    s ← get_self
    put_self (record s { lifetime = 0; rule = result })
    remove_installed d result
    t ← build_teardown_message
    send_message t
    send_message (create_response Code.sc_permanent_failure Code.fail_internal_error m)
    pure close

  unfoldable pub settle : Node P → NtlpMsg P → PolicyRule P → M P (Nf P) State
  settle d m result = do
    s ← get_self
    if get_number_mspec_objects result == get_number_mspec_objects s.rule
        then (do
          put_self (record s { rule = result })
          send_message (copy_for_forwarding m)
          start_state_timer d s.lifetime
          pure metering)
        else abandon d m result

  unfoldable pub accept_response : Node P → NtlpMsg P → M P (Nf P) State
  accept_response d m = do s ← get_self; result ← install_policy_rules d s.rule; settle d m result

  unfoldable pub reject_response : NtlpMsg P → M P (Nf P) State
  reject_response m = do
    s ← get_self
    put_self (record s { state_timer = 0 })
    send_message (copy_for_forwarding m)
    pure close

  -- is_response_to, for the message that was stored.
  abbrev pub answers_body : Message P → Option (Message P) → Bool
  answers_body resp none = false
  answers_body resp (some m) = is_response_to resp m

  unfoldable pub pending_response : Node P → Body P → M P (Nf P) State
  pending_response d b = do
    s ← get_self
    last ← stored s.configure_message
    elim (matching_response b last) [
      | none ↦ pure pending
      | some resp ↦ elim (ntlp_msg_of b) [
        | none ↦ pure pending
        | some m ↦
            if answers_body resp last.body
            then (if is_success resp then accept_response d m else reject_response m)
            else pure pending
      ]
    ]

  unfoldable pub pending_other : Node P → Body P → M P (Nf P) State
  pending_other d b c =
      if is_no_next_node_found b || is_timer_of b c.self.state_timer
      then give_up c
      else if is_timer b
      then pure pending c
      else pending_response d b c

  unfoldable pub handle_state_pending : Node P → Body P → M P (Nf P) State
  handle_state_pending d b c = elim (ntlp_msg_of b) [
    | none ↦ pending_other d b c
    | some m ↦ elim (get_message configure b) [
      | none ↦ pending_other d b c
      | some request ↦ pending_configure d m request c
    ]
  ]
