-- ===== src/Session/Preconditions.antt =====
-- What the checks before a request is handled let through.
use m_nslp.Prelude.{ℕ, ◌≤◌, ◌<◌, ◌≡◌, true, leb, if◌then◌else◌, arith}
use m_nslp.Platform.{Platform}
use m_nslp.Msg.Code
use m_nslp.Msg.Ntlp.{NtlpMsg}
use m_nslp.Node.{Node}
use m_nslp.Node.Monad.{request_error}
use m_nslp.Session.{accept, refuse, check_preconditions, check_lifetime, check_authorization}

module _ {P : Platform} where
  -- A request is refused exactly if its lifetime is not above the maximum and its sender is not
  -- authorized. Any other goes on, with its lifetime cut off at the maximum: above the maximum,
  -- whether the sender is authorized is not asked.
  check_preconditions_lem :
      (d : Node P) (m : NtlpMsg P) (lifetime max_lifetime : ℕ)
      → check_preconditions d m lifetime max_lifetime ≡ (
          if leb lifetime max_lifetime
          then (if d.is_authorized m
              then accept lifetime
              else refuse (request_error Code.sc_permanent_failure Code.fail_authentication_failed))
          else accept max_lifetime)
  unfolding check_preconditions check_lifetime check_authorization
  check_preconditions_lem d m lifetime max_lifetime = ground arith

  pub accept_bound :
      (d : Node P) (m : NtlpMsg P) (lifetime max_lifetime l : ℕ)
      → check_preconditions d m lifetime max_lifetime ≡ accept l
      → l ≤ max_lifetime
  unfolding check_preconditions check_lifetime check_authorization
  accept_bound d m lifetime max_lifetime l h = ground arith

  pub check_preconditions_small :
      (d : Node P) (m : NtlpMsg P) (lifetime max_lifetime : ℕ)
      → lifetime ≤ max_lifetime
      → d.is_authorized m ≡ true
      → check_preconditions d m lifetime max_lifetime ≡ accept lifetime
  unfolding check_preconditions check_lifetime check_authorization
  check_preconditions_small d m lifetime max_lifetime h a = ground arith

  pub check_preconditions_long :
      (d : Node P) (m : NtlpMsg P) (lifetime max_lifetime : ℕ)
      → max_lifetime < lifetime
      → check_preconditions d m lifetime max_lifetime ≡ accept max_lifetime
  unfolding check_preconditions check_lifetime check_authorization
  check_preconditions_long d m lifetime max_lifetime h = ground arith

  pub check_preconditions_zero :
      (d : Node P) (m : NtlpMsg P) (lifetime max_lifetime : ℕ)
      → lifetime ≡ 0
      → d.is_authorized m ≡ true
      → check_preconditions d m lifetime max_lifetime ≡ accept 0
  unfolding check_preconditions check_lifetime check_authorization
  check_preconditions_zero d m lifetime max_lifetime z a = ground arith
