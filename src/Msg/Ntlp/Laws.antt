-- ===== src/Msg/Ntlp/Laws.antt =====
-- Responses answer the message that they were made from.
use m_nslp.Prelude.{ℕ, ◌≡◌, refl, Bool, true, some, ◌==◌, arith}
use m_nslp.Platform.{Platform}
use m_nslp.Msg.Code
use m_nslp.Msg.Object.{is_success_code}
use m_nslp.Msg.Message.{
  Message, response, empty, has_msg_sequence_number, get_msg_sequence_number, get_session_lifetime,
  is_success, is_response_to, check_response, set_msg_sequence_number, set_session_lifetime,
  set_information_code,
}
use m_nslp.Msg.Ntlp.{NtlpMsg, create_response, create_success_response}
use m_nslp.Msg.Store.{get, set}

==_refl : (n : ℕ) → (n == n) ≡ true
==_refl n = ground arith

module _ {P : Platform} where
  -- What an answer says: its class, the request that it answers, its verdict and its lifetime.
  abbrev pub Answers : Message P → Message P → Bool → ℕ → Type 0
  Answers resp req verdict lifetime =
      (resp.kind ≡ response)
      × (has_msg_sequence_number resp ≡ true)
      × (get_msg_sequence_number resp ≡ get_msg_sequence_number req)
      × (is_response_to resp req ≡ true)
      × (is_success resp ≡ verdict)
      × (get_session_lifetime resp ≡ lifetime)
      × (check_response resp ≡ true)

  -- The answer goes back the way the request came, in the same session.
  abbrev pub Returns : NtlpMsg P → NtlpMsg P → Type 0
  Returns r m = (r.session_id ≡ m.session_id) × (r.mri ≡ P.invert m.mri) × (r.sii_handle ≡ 0)

  -- The body of an error response.
  abbrev answer : ℕ → ℕ → Message P → Message P
  answer severity code req =
      set_msg_sequence_number (get_msg_sequence_number req)
        (set_information_code severity code 0 (empty response))

  answer-Answers :
      (severity code : ℕ) (req : Message P)
      → Answers (answer severity code req) req (is_success_code severity code) 0
  unfolding set_information_code set_msg_sequence_number is_response_to has_msg_sequence_number
      get_msg_sequence_number is_success get_session_lifetime check_response get set
  answer-Answers severity code req = (refl, refl, refl, ==_refl _, refl, refl, refl)

  success-Answers :
      (lifetime : ℕ) (req : Message P)
      → Answers
          (set_session_lifetime lifetime
            (answer Code.sc_success Code.suc_successfully_processed req))
          req
          true
          lifetime
  unfolding set_information_code set_msg_sequence_number set_session_lifetime is_response_to
      has_msg_sequence_number get_msg_sequence_number is_success get_session_lifetime check_response
      get set
  success-Answers lifetime req = (refl, refl, refl, ==_refl _, refl, refl, refl)

  module _ (m : NtlpMsg P) (req : Message P) (parsed : m.body ≡ some req)
      (numbered : has_msg_sequence_number req ≡ true) where
    create_response-body :
        (severity code : ℕ)
        → (create_response severity code m).body ≡ some (answer severity code req)
    unfolding create_response
    create_response-body severity code = rw (parsed, numbered)

    -- A response to a message that has a sequence number goes back the way the message came, in
    -- the same session, answers that sequence number, is a success exactly if the codes say so,
    -- and has no lifetime.
    create_response_lem :
        (severity code : ℕ)
        → Returns (create_response severity code m) m
          × ((resp : Message P) × ((create_response severity code m).body ≡ some resp)
              × Answers resp req (is_success_code severity code) 0)
    unfolding create_response
    create_response_lem severity code = (
      (refl, refl, refl),
      (
        answer severity code req,
        create_response-body severity code,
        answer-Answers severity code req,
      ),
    )

    -- A success response does the same, is a success, and carries the lifetime that is given.
    create_success_response_lem :
        (lifetime : ℕ)
        → Returns (create_success_response lifetime m) m
          × ((resp : Message P) × ((create_success_response lifetime m).body ≡ some resp)
              × Answers resp req true lifetime)
    unfolding create_success_response
    create_success_response_lem lifetime =
        ((refl, refl, refl), (_, rw (parsed, numbered) refl, success-Answers lifetime req))
