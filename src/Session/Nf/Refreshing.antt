-- ===== src/Session/Nf/Refreshing.antt =====
-- src/nf_session.cpp: the METERING state of a forwarder, and the dispatch on the state.
use m_nslp.Prelude.{ℕ, Bool, true, false, ◌||◌, none, some, ◌==◌, if◌then◌else◌}
use m_nslp.Platform.{Platform}
use m_nslp.Msg.Code
use m_nslp.Msg.Serial.{is_greater_than}
use m_nslp.Msg.Message.{Message, refresh, get_session_lifetime, get_msg_sequence_number, is_success}
use m_nslp.Msg.Ntlp.{NtlpMsg, copy_for_forwarding, create_response}
use m_nslp.Event.{
  Body, get_message, is_timer_of, is_no_next_node_found, is_route_changed_bad, matching_response,
}
use m_nslp.Node.{Node, send_message, remove_installed}
use m_nslp.Node.Monad.{M, ◌>>=◌, ◌>>◌, pure, get_self, put_self}
use m_nslp.Session.{send_error, accept, refuse, check_preconditions}
use m_nslp.Session.Nf.{
  Nf, State, close, pending, metering, stored, start_state_timer, start_response_timer,
}
use m_nslp.Session.Nf.Machine.{ntlp_msg_of, answers_body, handle_state_close, handle_state_pending}

module _ {P : Platform} where
  -- A REFRESH that passed the checks. With lifetime 0 the sequence number is not taken over.
  unfoldable pub pass_on : Node P → NtlpMsg P → ℕ → ℕ → M P (Nf P) State
  pass_on d m lifetime msn = do
    s ← get_self
    put_self (record s {
      lifetime = lifetime;
      response_timer = 0;
      msn = if lifetime == 0 then s.msn else msn;
      refresh_message = some m;
    })
    send_message (copy_for_forwarding m)
    s ← get_self
    start_response_timer d s.response_timeout
    pure metering

  unfoldable pub metering_refresh : Node P → NtlpMsg P → Message P → M P (Nf P) State
  metering_refresh d m r = do
    s ← get_self
    elim (check_preconditions d m (get_session_lifetime r) s.max_lifetime) [
      | refuse e ↦ (do send_error e m; pure metering)
      | accept lifetime ↦
          if is_greater_than (get_msg_sequence_number r) s.msn
          then pass_on d m lifetime (get_msg_sequence_number r)
          else pure metering
    ]

  -- The next node is gone, or did not answer a REFRESH in time.
  unfoldable pub lose_peer : Node P → M P (Nf P) State
  lose_peer d = do
    s ← get_self
    put_self (record s { state_timer = 0 })
    remove_installed d s.rule
    latest ← stored s.refresh_message
    send_message (create_response Code.sc_permanent_failure Code.fail_nr_not_reached latest)
    pure close

  -- The previous node did not refresh in time.
  unfoldable pub expire : Node P → M P (Nf P) State
  expire d = do
    s ← get_self
    put_self (record s { response_timer = 0 })
    remove_installed d s.rule
    pure close

  unfoldable pub lose_route : Node P → M P (Nf P) State
  lose_route d = do s ← get_self; remove_installed d s.rule; pure close

  unfoldable pub confirm : Node P → NtlpMsg P → M P (Nf P) State
  confirm d m = do
    send_message (copy_for_forwarding m)
    s ← get_self
    if s.lifetime == 0
        then (do put_self (record s { state_timer = 0 }); remove_installed d s.rule; pure close)
        else (do start_state_timer d s.lifetime; pure metering)

  unfoldable pub fail_refresh : Node P → NtlpMsg P → M P (Nf P) State
  fail_refresh d m = do
    s ← get_self
    put_self (record s { state_timer = 0 })
    remove_installed d s.rule
    send_message (copy_for_forwarding m)
    pure close

  unfoldable pub metering_response : Node P → Body P → M P (Nf P) State
  metering_response d b = do
    s ← get_self
    last ← stored s.refresh_message
    elim (matching_response b last) [
      | none ↦ pure metering
      | some resp ↦ elim (ntlp_msg_of b) [
        | none ↦ pure metering
        | some m ↦
            if answers_body resp last.body
            then (if is_success resp then confirm d m else fail_refresh d m)
            else pure metering
      ]
    ]

  -- The predicate on the stored REFRESH comes before the one on outdated timers.
  unfoldable pub metering_other : Node P → Body P → M P (Nf P) State
  metering_other d b c =
      if is_no_next_node_found b || is_timer_of b c.self.response_timer
      then lose_peer d c
      else if is_timer_of b c.self.state_timer
      then expire d c
      else if is_route_changed_bad b
      then lose_route d c
      else metering_response d b c

  unfoldable pub handle_state_metering : Node P → Body P → M P (Nf P) State
  handle_state_metering d b c = elim (ntlp_msg_of b) [
    | none ↦ metering_other d b c
    | some m ↦ elim (get_message refresh b) [
      | none ↦ metering_other d b c
      | some r ↦ metering_refresh d m r c
    ]
  ]

  unfoldable pub handle_state : State → Node P → Body P → M P (Nf P) State
  handle_state close d b = handle_state_close d b
  handle_state pending d b = handle_state_pending d b
  handle_state metering d b = handle_state_metering d b

  unfoldable pub process_event : Node P → Body P → M P (Nf P) (Unit {0})
  process_event d b = do
    s ← get_self
    next ← handle_state s.state d b
    s ← get_self
    put_self (record s { state = next })

  unfoldable pub is_final : Nf P → Bool
  is_final s = elim (s.state) [ close ↦ true | _ ↦ false ]
