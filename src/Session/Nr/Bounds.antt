-- ===== src/Session/Nr/Bounds.antt =====
-- The lifetime of a responder's session.
use m_nslp.Prelude.{ℕ, ◌≤◌, ◌≡◌, refl, Option, none, some, arith}
use m_nslp.Platform.{Platform}
use m_nslp.Msg.Message.{Message, refresh, get_session_lifetime, get_msg_sequence_number}
use m_nslp.Msg.Ntlp.{NtlpMsg}
use m_nslp.Rule.{PolicyRule}
use m_nslp.Event.{Body, msg, get_message}
use m_nslp.Node.{Node, send_message, report_async_event, start_timer, remove_installed}
use m_nslp.Node.Monad.{Ctx, Exn, request_error, installer_error, override_lifetime}
use m_nslp.Session.{Verdict, accept, refuse, send_error, check_preconditions}
use m_nslp.Session.Preconditions.{accept_bound}
use m_nslp.Session.Nr.{Nr, start_state_timer}
use m_nslp.Session.Nr.Machine.{
  prolong, terminate, answer_refresh, metering_refresh, expire, metering_other,
  handle_state_metering,
}

module _ {P : Platform} where
  -- The session keeps its id and its maximum, and a lifetime within the maximum.
  abbrev pub Bounded : Nr P → Nr P → Type 0
  Bounded before after =
      (after.id ≡ before.id)
      × (after.max_lifetime ≡ before.max_lifetime)
      × (after.lifetime ≤ after.max_lifetime)

  send_message-self : (m : NtlpMsg P) (c : Ctx P (Nr P)) → (send_message m c).1.self ≡ c.self
  unfolding send_message
  send_message-self m c = ground arith

  pub send_error-self :
      (e : Exn) (m : NtlpMsg P) (c : Ctx P (Nr P)) → (send_error e m c).1.self ≡ c.self
  unfolding send_error
  send_error-self (request_error severity code) m c = send_message-self _ c
  send_error-self (installer_error severity code) m c = send_message-self _ c
  send_error-self (override_lifetime severity code) m c = refl

  pub remove_installed-self :
      (d : Node P) (r : PolicyRule P) (c : Ctx P (Nr P)) → (remove_installed d r c).1.self ≡ c.self
  unfolding remove_installed
  remove_installed-self d r c = ground arith

  prolong-Bounded :
      (d : Node P) (m : NtlpMsg P) (lifetime msn : ℕ) (c : Ctx P (Nr P))
      → lifetime ≤ c.self.max_lifetime
      → Bounded c.self (prolong d m lifetime msn c).1.self
  unfolding prolong start_state_timer send_message start_timer
  prolong-Bounded d m lifetime msn c h = ground arith

  terminate-Bounded :
      (d : Node P) (m : NtlpMsg P) (c : Ctx P (Nr P))
      → c.self.lifetime ≤ c.self.max_lifetime
      → Bounded c.self (terminate d m c).1.self
  unfolding terminate send_message
  terminate-Bounded d m c h = ground (arith, remove_installed-self d c.self.rule c)

  metering_refresh-Bounded :
      (d : Node P) (m : NtlpMsg P) (r : Message P) (c : Ctx P (Nr P))
      → c.self.lifetime ≤ c.self.max_lifetime
      → Bounded c.self (metering_refresh d m r c).1.self
  unfolding metering_refresh answer_refresh
  metering_refresh-Bounded d m r c h =
      cases (check_preconditions d m (get_session_lifetime r) c.self.max_lifetime) refl
    where
      cases :
          (v : Verdict)
          → check_preconditions d m (get_session_lifetime r) c.self.max_lifetime ≡ v
          → Bounded c.self (metering_refresh d m r c).1.self
      cases (accept l) e = ground (
        arith,
        prolong-Bounded d m l (get_msg_sequence_number r) c (accept_bound d m _ _ l e),
        terminate-Bounded d m c h,
      )
      cases (refuse x) e = ground (arith, send_error-self x m c)

  expire-Bounded :
      (d : Node P) (c : Ctx P (Nr P))
      → c.self.lifetime ≤ c.self.max_lifetime
      → Bounded c.self (expire d c).1.self
  unfolding expire report_async_event
  expire-Bounded d c h = ground (arith, remove_installed-self d c.self.rule c)

  pub handle_state_metering-Bounded :
      (d : Node P) (b : Body P) (c : Ctx P (Nr P))
      → c.self.lifetime ≤ c.self.max_lifetime
      → Bounded c.self (handle_state_metering d b c).1.self
  unfolding handle_state_metering metering_other
  handle_state_metering-Bounded d (msg m own) c h = cases (get_message refresh (msg m own)) refl
    where
      cases :
          (o : Option (Message P))
          → get_message refresh (msg m own) ≡ o
          → Bounded c.self (handle_state_metering d (msg m own) c).1.self
      cases none e = ground arith
      cases (some r) e = ground (arith, metering_refresh-Bounded d m r c h)
  handle_state_metering-Bounded d b c h = ground (arith, expire-Bounded d c h)
