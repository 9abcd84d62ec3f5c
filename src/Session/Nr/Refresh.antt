-- ===== src/Session/Nr/Refresh.antt =====
-- How a responder that meters answers REFRESH messages.
use m_nslp.Prelude.{ℕ, suc, ◌<◌, ◌≡◌, ◌≢◌, Bool, true, false, some, ◌∷◌, arith}
use m_nslp.Platform.{Platform}
use m_nslp.Msg.Serial.{is_greater_than}
use m_nslp.Msg.Message.{Message, refresh, get_session_lifetime, get_msg_sequence_number}
use m_nslp.Msg.Ntlp.{NtlpMsg, create_success_response}
use m_nslp.Event.{msg, get_message}
use m_nslp.Node.{Node, send_message, start_timer}
use m_nslp.Node.Monad.{Ctx, World, ok, sent, timer_started}
use m_nslp.Session.{accept, check_preconditions}
use m_nslp.Node.Removing.{Removes, after_removal, remove_installed_lem}
use m_nslp.Node.Sending.{create_success_response-sendable}
use m_nslp.Session.Preconditions.{check_preconditions_zero, check_preconditions_long}
use m_nslp.Session.Nr.{Nr, close, metering, start_state_timer}
use m_nslp.Session.Nr.Machine.{
  prolong, terminate, answer_refresh, metering_refresh, handle_state_metering, handle_state,
  process_event,
}

module _ {P : Platform} (d : Node P) (m : NtlpMsg P) (own : Bool) (r : Message P) (c : Ctx P (Nr P))
    (is_refresh : get_message refresh (msg m own) ≡ some r) (meters : c.self.state ≡ metering) where
  step :
      (l : ℕ)
      → check_preconditions d m (get_session_lifetime r) c.self.max_lifetime ≡ accept l
      → handle_state_metering d (msg m own) c ≡ answer_refresh d m l (get_msg_sequence_number r) c
  unfolding handle_state_metering metering_refresh
  step l h = ground arith

  -- A responder ignores a REFRESH that passes the checks and is not newer than the last one:
  -- nothing is changed and nothing is sent.
  stale_refresh_ignored :
      (l : ℕ)
      → check_preconditions d m (get_session_lifetime r) c.self.max_lifetime ≡ accept l
      → is_greater_than (get_msg_sequence_number r) c.self.msn ≡ false
      → process_event d (msg m own) c ≡ (ok tt, c)
  unfolding process_event handle_state answer_refresh
  stale_refresh_ignored l h s = ground (arith, step l h)

  -- The session and the record after an answer that prolongs the session.
  abbrev pub prolonged : ℕ → Ctx P (Nr P)
  prolonged l = record {
    self = record (c.self) {
      lifetime = l;
      msn = get_msg_sequence_number r;
      state_timer = d.timer_id w.timers;
    };
    world = record w {
      timers = suc w.timers;
      log = timer_started (d.timer_id w.timers) l ∷ sent (create_success_response l m) ∷ w.log;
    };
  }
    where
      w : World P
      w = c.world

  prolong_lem : (l : ℕ) → prolong d m l (get_msg_sequence_number r) c ≡ (ok metering, prolonged l)
  unfolding prolong send_message start_state_timer start_timer
  prolong_lem l = ground (arith, create_success_response-sendable P l m)

  -- A newer REFRESH that passes the checks with a lifetime prolongs the session by it: the
  -- lifetime and the sequence number are taken over, a success response with the lifetime is
  -- sent, and the state timer is started anew.
  pub newer_refresh_prolongs :
      (l : ℕ)
      → check_preconditions d m (get_session_lifetime r) c.self.max_lifetime ≡ accept l
      → is_greater_than (get_msg_sequence_number r) c.self.msn ≡ true
      → l ≢ 0
      → process_event d (msg m own) c ≡ (ok tt, prolonged l)
  unfolding process_event handle_state answer_refresh
  newer_refresh_prolongs l h g n = ground (arith, step l h, prolong_lem l)

  -- Anyone can prolong the session of a responder: a newer REFRESH with a lifetime above the
  -- maximum is accepted for the maximum, whether its sender is authorized or not.
  pub unauthorized_prolongs :
      c.self.max_lifetime < get_session_lifetime r
      → is_greater_than (get_msg_sequence_number r) c.self.msn ≡ true
      → c.self.max_lifetime ≢ 0
      → process_event d (msg m own) c ≡ (ok tt, prolonged c.self.max_lifetime)
  unauthorized_prolongs long g n =
      newer_refresh_prolongs c.self.max_lifetime (check_preconditions_long d m _ _ long) g n

  terminate_lem :
      Removes d c.self.rule
      → terminate d m c ≡ (
        ok close,
        record {
          self = record (c.self) { state_timer = 0 };
          world = record (c.world) {
            log = sent (create_success_response 0 m) ∷ (after_removal c.self.rule c.world).log;
          };
        },
      )
  unfolding terminate send_message
  terminate_lem rem =
      ground
        (arith, remove_installed_lem d c.self.rule c rem, create_success_response-sendable P 0 m)

  -- A newer REFRESH with lifetime 0 whose sender is authorized ends the session: the rule is
  -- removed if any of it is installed, and a success response is sent. The removal has to
  -- return all keys.
  pub zero_refresh_terminates :
      get_session_lifetime r ≡ 0
      → d.is_authorized m ≡ true
      → is_greater_than (get_msg_sequence_number r) c.self.msn ≡ true
      → Removes d c.self.rule
      → let r = process_event d (msg m own) c in
        (r.0 ≡ ok tt)
        × (r.1.self.state ≡ close)
        × (r.1.world.log
            ≡ sent (create_success_response 0 m) ∷ (after_removal c.self.rule c.world).log)
  unfolding process_event handle_state answer_refresh
  zero_refresh_terminates z a g rem =
      ground (arith, step 0 (check_preconditions_zero d m _ _ z a), terminate_lem rem)
