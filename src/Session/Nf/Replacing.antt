-- ===== src/Session/Nf/Replacing.antt =====
-- A forwarder that gets another CONFIGURE while it waits for the response to the first.
use m_nslp.Prelude.{◌≡◌, ◌≢◌, Bool, true, false, some, arith}
use m_nslp.Platform.{Platform}
use m_nslp.Msg.Message.{Message, configure, get_session_lifetime, get_msg_sequence_number}
use m_nslp.Msg.Ntlp.{NtlpMsg}
use m_nslp.Event.{msg, get_message}
use m_nslp.Node.{Node, send_message, start_timer}
use m_nslp.Node.Monad.{Ctx}
use m_nslp.Session.{check_authorization}
use m_nslp.Session.Nf.{
  Nf, pending, set_pc_mri, set_mt_policy_rule, build_configure_message, start_state_timer,
}
use m_nslp.Session.Nf.Machine.{
  set_up, process_state_close, repeat_request, pending_configure, handle_state_pending,
}
use m_nslp.Session.Nf.Refreshing.{handle_state, process_event}

module _ {P : Platform} where
  set_up-lifetime :
      (d : Node P) (m : NtlpMsg P) (r : Message P) (c : Ctx P (Nf P))
      → (set_up d m r c).1.self.lifetime ≡ c.self.lifetime
  unfolding set_up set_pc_mri set_mt_policy_rule build_configure_message send_message
      start_state_timer start_timer
  set_up-lifetime d m r c = ground arith

  process_state_close-lifetime :
      (d : Node P) (m : NtlpMsg P) (r : Message P) (c : Ctx P (Nf P))
      → (process_state_close d m r c).1.self.lifetime ≡ c.self.lifetime
  unfolding process_state_close send_message
  process_state_close-lifetime d m r c = ground (
    arith,
    set_up-lifetime d m r (record c { self = record (c.self) { configure_message = some m } }),
  )

  -- A forwarder that waits for the response to a CONFIGURE takes the lifetime of a different
  -- CONFIGURE of an authorized sender as it is, whatever its maximum is: only the first is
  -- checked against it.
  replacing_lifetime_unchecked :
      (d : Node P) (m last : NtlpMsg P) (own : Bool) (r q : Message P) (c : Ctx P (Nf P))
      → c.self.state ≡ pending
      → c.self.configure_message ≡ some last
      → get_message configure (msg last false) ≡ some q
      → get_message configure (msg m own) ≡ some r
      → d.is_authorized m ≡ true
      → get_msg_sequence_number r ≢ get_msg_sequence_number q
      → get_session_lifetime r ≢ 0
      → (process_event d (msg m own) c).1.self.lifetime ≡ get_session_lifetime r
  unfolding process_event handle_state handle_state_pending pending_configure repeat_request
      check_authorization
  replacing_lifetime_unchecked d m last own r q c p l f g a n z = ground (
    arith,
    process_state_close-lifetime d m r (record c {
      self = record (c.self) { lifetime = get_session_lifetime r; msn = get_msg_sequence_number r };
    }),
  )
