-- ===== src/Session/Ni/Pending.antt =====
-- Which events can let an initiator meter.
use m_nslp.Prelude.{◌≡◌, ◌≢◌, true, Option, none, some, arith}
use m_nslp.Platform.{Platform}
use m_nslp.Msg.Message.{Message, is_success}
use m_nslp.Msg.Ntlp.{NtlpMsg}
use m_nslp.Event.{Body, ApiConfigure, api_configure, matching_response}
use m_nslp.Node.{Node, report_async_event}
use m_nslp.Node.Monad.{Ctx, ok}
use m_nslp.Session.Ni.{Ni, metering}
use m_nslp.Session.Ni.Machine.{
  handle_state_pending, retry_configure, pending_response, start_session, handle_state_close,
  teardown_pending,
}

module _ {P : Platform} where
  start_session-state :
      (d : Node P) (e : ApiConfigure P) (c : Ctx P (Ni P)) → (start_session d e c).0 ≢ ok metering
  unfolding start_session
  start_session-state d e c h = ground arith

  pub handle_state_close-state :
      (d : Node P) (b : Body P) (c : Ctx P (Ni P)) → (handle_state_close d b c).0 ≢ ok metering
  unfolding handle_state_close
  handle_state_close-state d (api_configure e) c h = start_session-state d e c h
  handle_state_close-state d _ c h = cc

  pub retry_configure-state :
      (d : Node P) (c : Ctx P (Ni P)) → (retry_configure d c).0 ≢ ok metering
  unfolding retry_configure
  retry_configure-state d c h = ground arith

  pub teardown_pending-state :
      (d : Node P) (c : Ctx P (Ni P)) → (teardown_pending d c).0 ≢ ok metering
  unfolding teardown_pending
  teardown_pending-state d c h = ground arith

  -- The event is a success response to the CONFIGURE that the session sent.
  abbrev pub SucceedsFor : Body P → Option (NtlpMsg P) → Type 0
  SucceedsFor b none = ⊥
  SucceedsFor b (some m) =
      (resp : Message P) × (matching_response b m ≡ some resp) × (is_success resp ≡ true)

  pending_response-state :
      (d : Node P) (b : Body P) (c : Ctx P (Ni P))
      → (pending_response d b c).0 ≡ ok metering
      → SucceedsFor b c.self.last_configure
  unfolding pending_response report_async_event
  pending_response-state d b c h = ground arith

  pub handle_state_pending-state :
      (d : Node P) (b : Body P) (c : Ctx P (Ni P))
      → (handle_state_pending d b c).0 ≡ ok metering
      → SucceedsFor b c.self.last_configure
  unfolding handle_state_pending
  handle_state_pending-state d b c h =
      ground
        (arith, retry_configure-state d c, teardown_pending-state d c, pending_response-state d b c)
