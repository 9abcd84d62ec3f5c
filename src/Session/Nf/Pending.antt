-- ===== src/Session/Nf/Pending.antt =====
-- What does not let a forwarder meter.
use m_nslp.Prelude.{◌≡◌, ◌≢◌, refl, false, Option, none, some, arith}
use m_nslp.Platform.{Platform}
use m_nslp.Msg.Message.{Message, configure}
use m_nslp.Msg.Ntlp.{NtlpMsg}
use m_nslp.Rule.{PolicyRule}
use m_nslp.Event.{Body, msg, get_message}
use m_nslp.Node.{Node}
use m_nslp.Node.Monad.{Ctx, ok}
use m_nslp.Session.Nf.{Nf, metering}
use m_nslp.Session.Nf.Machine.{
  set_up, process_state_close, open_request, handle_state_close, repeat_request, pending_configure,
  give_up, abandon, reject_response,
}

module _ {P : Platform} where
  set_up-state :
      (d : Node P) (m : NtlpMsg P) (r : Message P) (c : Ctx P (Nf P))
      → (set_up d m r c).0 ≢ ok metering
  unfolding set_up
  set_up-state d m r c h = ground arith

  process_state_close-state :
      (d : Node P) (m : NtlpMsg P) (r : Message P) (c : Ctx P (Nf P))
      → (process_state_close d m r c).0 ≢ ok metering
  unfolding process_state_close
  process_state_close-state d m r c h = ground (
    arith,
    set_up-state d m r (record c { self = record (c.self) { configure_message = some m } }),
  )

  open_request-state :
      (d : Node P) (m : NtlpMsg P) (r : Message P) (c : Ctx P (Nf P))
      → (open_request d m r c).0 ≢ ok metering
  unfolding open_request
  open_request-state d m r c h = grind (arith, process_state_close-state)

  pub handle_state_close-state :
      (d : Node P) (b : Body P) (c : Ctx P (Nf P)) → (handle_state_close d b c).0 ≢ ok metering
  unfolding handle_state_close
  handle_state_close-state d (msg m own) c h = cases (get_message configure (msg m own)) refl
    where
      cases : (o : Option (Message P)) → get_message configure (msg m own) ≡ o → ⊥
      cases none e = ground arith
      cases (some r) e = ground (arith, open_request-state d m r c)
  handle_state_close-state d _ c h = ground arith

  repeat_request-state :
      (d : Node P) (m : NtlpMsg P) (r q : Message P) (c : Ctx P (Nf P))
      → (repeat_request d m r q c).0 ≢ ok metering
  unfolding repeat_request
  repeat_request-state d m r q c h = grind (arith, process_state_close-state)

  pub pending_configure-state :
      (d : Node P) (m : NtlpMsg P) (r : Message P) (c : Ctx P (Nf P))
      → (pending_configure d m r c).0 ≢ ok metering
  unfolding pending_configure
  pending_configure-state d m r c h = cases (c.self.configure_message) refl
    where
      inner :
          (last : NtlpMsg P) (o : Option (Message P))
          → c.self.configure_message ≡ some last
          → get_message configure (msg last false) ≡ o
          → ⊥
      inner last none e f = ground arith
      inner last (some q) e f = ground (arith, repeat_request-state d m r q c)

      cases : (o : Option (NtlpMsg P)) → c.self.configure_message ≡ o → ⊥
      cases none e = ground arith
      cases (some last) e = inner last _ e refl

  pub give_up-state : (c : Ctx P (Nf P)) → (give_up c).0 ≢ ok metering
  unfolding give_up
  give_up-state c h = ground arith

  pub reject_response-state :
      (m : NtlpMsg P) (c : Ctx P (Nf P)) → (reject_response m c).0 ≢ ok metering
  unfolding reject_response
  reject_response-state m c h = ground arith

  pub abandon-state :
      (d : Node P) (m : NtlpMsg P) (r : PolicyRule P) (c : Ctx P (Nf P))
      → (abandon d m r c).0 ≢ ok metering
  unfolding abandon
  abandon-state d m r c h = ground arith
