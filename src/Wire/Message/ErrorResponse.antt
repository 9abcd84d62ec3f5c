-- ===== src/Wire/Message/ErrorResponse.antt =====
-- The responses that report an error: src/msg/ntlp_msg.cpp, src/msg/mnslp_response.cpp.
use m_nslp.Prelude.{
  ℕ, ◌/◌, ◌%◌, ◌==◌, arith, ◌<◌, ◌≡◌, refl, Bool, true, false, Option, none, some, if◌then◌else◌,
}
use m_nslp.Platform.{Platform}
use m_nslp.Msg.Store.{get, set, get_max_sequence}
use m_nslp.Msg.Message.{
  Message, response, empty, set_object, set_msg_sequence_number, set_information_code,
  check_response, has_msg_sequence_number, get_msg_sequence_number,
}
use m_nslp.Msg.Ntlp.{NtlpMsg, copy_msn, create_response}
use m_nslp.Wire.{NetMsg, Codec, undefined}
use m_nslp.Wire.Object.{serialize, check_object}
use m_nslp.Wire.Message.{serialize_keys, serialize_message}

severity_valid : (s : ℕ) → s < 16 → s / 16 % 16 == 0 ≡ true
severity_valid s h = ground arith

module _ (P : Platform) (N : NetMsg) (C : Codec P.Mspec) where
  without_msn :
      (s c : ℕ)
      → serialize_message P N C (set_information_code {P = P} s c 0 (empty response)) ≡ undefined
  unfolding serialize_message set_information_code set_object get set check_response serialize_keys
  without_msn s c = refl

  with_msn :
      (s c msn : ℕ)
      → s < 16
      → serialize_message P N C
          (set_msg_sequence_number msn (set_information_code {P = P} s c 0 (empty response)))
        ≡ undefined
  unfolding serialize_message set_information_code set_msg_sequence_number set_object get set
      check_response serialize_keys get_max_sequence serialize check_object
  with_msn s c msn hs = rw (severity_valid s hs) refl

  -- A response made by create_response with a severity of 4 bits has no lifetime,
  -- and `serialize` of it reaches the end of serialize_object, which has to return a value,
  -- without a return statement.
  pub error_response_undefined :
      (m : NtlpMsg P) (severity code : ℕ)
      → severity < 16
      → (resp : Message P) × ((create_response severity code m).body ≡ some resp)
        × (serialize_message P N C resp ≡ undefined)
  unfolding create_response
  error_response_undefined m s c hs = (_, refl, answer m.body)
    where
      tested :
          (b : Bool) (request : Message P)
          → serialize_message P N C (
              if b
              then set_msg_sequence_number
                  (get_msg_sequence_number request)
                  (set_information_code {P = P} s c 0 (empty response))
              else set_information_code {P = P} s c 0 (empty response))
            ≡ undefined
      tested true request = with_msn s c (get_msg_sequence_number request) hs
      tested false request = without_msn s c

      answer :
          (body : Option (Message P))
          → serialize_message P N C
              (copy_msn body (set_information_code {P = P} s c 0 (empty response)))
            ≡ undefined
      answer none = without_msn s c
      answer (some request) = tested (has_msg_sequence_number request) request
