-- ===== src/Node/Sending.antt =====
-- Which messages can be serialized.
use m_nslp.Prelude.{
  ℕ, Bool, false, Option, none, arith, ◌+◌, ◌<◌, ◌≡◌, refl, true, some, List, length, u32_mod,
}
use m_nslp.Platform.{Platform}
use m_nslp.Msg.Message.{
  Message, response, empty, get_msg_sequence_number, get_object, check_configure, check_response,
  set_information_code, set_msg_sequence_number, set_session_lifetime,
}
use m_nslp.Msg.Message.Laws.{build, build-store}
use m_nslp.Node.{is_sendable, info_valid}
use m_nslp.Msg.Ntlp.{NtlpMsg, create_response, create_success_response}
use m_nslp.Msg.Store.{get, set}
use m_nslp.Msg.Code

-- A CONFIGURE that the program puts together can be sent.
pub build-sendable :
    (P : Platform) (l m s h : ℕ) (xs : List P.Mspec)
    → 300 + length xs < u32_mod
    → is_sendable (some (build P l m s h xs)) ≡ true
unfolding is_sendable check_configure
build-sendable P l m s h xs small = rw (build-store P l m s h xs small)

module _ (P : Platform) where
  answer_body : Bool → ℕ → ℕ → ℕ → Message P
  answer_body true msn severity code =
      set_msg_sequence_number msn (set_information_code severity code 0 (empty response))
  answer_body false msn severity code = set_information_code severity code 0 (empty response)

  answer-sendable :
      (numbered : Bool) (msn severity code : ℕ)
      → severity < 16
      → is_sendable (some (answer_body numbered msn severity code)) ≡ true
  unfolding is_sendable info_valid check_response get_object set_information_code
      set_msg_sequence_number set get answer_body
  answer-sendable true msn severity code h = ground arith
  answer-sendable false msn severity code h = ground arith

  -- An error response can be sent, whatever was received.
  pub create_response-sendable :
      (severity code : ℕ) (m : NtlpMsg P)
      → severity < 16
      → is_sendable (create_response severity code m).body ≡ true
  unfolding create_response answer_body
  create_response-sendable severity code m h = cases (m.body) refl
    where
      cases :
          (o : Option (Message P))
          → m.body ≡ o
          → is_sendable (create_response severity code m).body ≡ true
      cases none e = ground (arith, answer-sendable false 0 severity code h)
      cases (some r) e = ground (
        arith,
        answer-sendable true (get_msg_sequence_number r) severity code h,
        answer-sendable false 0 severity code h,
      )

  success_body : Bool → ℕ → ℕ → Message P
  unfolding answer_body
  success_body numbered msn lifetime =
      set_session_lifetime lifetime
        (answer_body numbered msn Code.sc_success Code.suc_successfully_processed)

  success-sendable :
      (numbered : Bool) (msn lifetime : ℕ)
      → is_sendable (some (success_body numbered msn lifetime)) ≡ true
  unfolding is_sendable info_valid check_response get_object set_information_code
      set_msg_sequence_number set_session_lifetime set get answer_body success_body
  success-sendable true msn lifetime = refl
  success-sendable false msn lifetime = refl

  -- A success response can be sent.
  pub create_success_response-sendable :
      (lifetime : ℕ) (m : NtlpMsg P) → is_sendable (create_success_response lifetime m).body ≡ true
  unfolding create_response create_success_response answer_body success_body
  create_success_response-sendable lifetime m = cases (m.body) refl
    where
      cases :
          (o : Option (Message P))
          → m.body ≡ o
          → is_sendable (create_success_response lifetime m).body ≡ true
      cases none e = ground (arith, success-sendable false 0 lifetime)
      cases (some r) e = ground (
        arith,
        success-sendable true (get_msg_sequence_number r) lifetime,
        success-sendable false 0 lifetime,
      )
