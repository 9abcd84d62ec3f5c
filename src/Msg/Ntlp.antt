-- ===== src/Msg/Ntlp.antt =====
-- src/msg/ntlp_msg.cpp: a message with its session and routing information. A copy of an
-- object is the same value, so `copy` is not written; what a copy changes is.
pub mod Laws
use m_nslp.Prelude.{ℕ, Option, none, some, if◌then◌else◌}
use m_nslp.Platform.{Platform}
use m_nslp.Msg.Code
use m_nslp.Msg.Message.{
  Message, response, empty, has_msg_sequence_number, get_msg_sequence_number,
  set_msg_sequence_number, set_session_lifetime, set_information_code,
}

pub record NtlpMsg (P : Platform) : Type 0 where
  pub session_id : ℕ
  -- `none` if the body could not be parsed.
  pub body : Option (Message P)
  pub mri : P.Mri
  pub sii_handle : ℕ

module _ {P : Platform} where
  unfoldable pub copy_for_forwarding : NtlpMsg P → NtlpMsg P
  copy_for_forwarding m = record m { sii_handle = 0 }

  abbrev pub copy_msn : Option (Message P) → Message P → Message P
  copy_msn none resp = resp
  copy_msn (some m) resp =
      if has_msg_sequence_number m
      then set_msg_sequence_number (get_msg_sequence_number m) resp
      else resp

  unfoldable pub create_response : ℕ → ℕ → NtlpMsg P → NtlpMsg P
  create_response severity code m = record m {
    body = some (copy_msn m.body (set_information_code severity code 0 (empty response)));
    mri = P.invert m.mri;
    sii_handle = 0;
  }

  abbrev pub with_lifetime : ℕ → Option (Message P) → Option (Message P)
  with_lifetime lifetime none = none
  with_lifetime lifetime (some resp) = some (set_session_lifetime lifetime resp)

  unfoldable pub create_success_response : ℕ → NtlpMsg P → NtlpMsg P
  unfolding create_response
  create_success_response lifetime m =
      let resp = create_response Code.sc_success Code.suc_successfully_processed m in
      record resp { body = with_lifetime lifetime resp.body }
