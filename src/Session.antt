-- ===== src/Session.antt =====
-- src/session.cpp: what the three session classes share.
pub mod Placing
pub mod Preconditions
pub mod Ni
pub mod Nf
pub mod Nr
use m_nslp.Prelude.{
  ℕ, suc, Bool, true, false, ◌&&◌, ◌||◌, Option, none, some, List, [], ◌∷◌, ◌==◌, ltb,
  if◌then◌else◌,
}
use m_nslp.Platform.{Platform}
use m_nslp.Msg.Code
use m_nslp.Msg.Ntlp.{NtlpMsg, create_response}
use m_nslp.Rule.{PolicyRule, set_object}
use m_nslp.Node.{Node, check, send_message}
use m_nslp.Node.Monad.{M, Exn, request_error, override_lifetime, installer_error, throw}

pub data SessionType : Type 0 where
  st_initiator st_forwarder st_receiver : SessionType

-- The values of selection_metering_entities_t.
abbrev pub sme_all : ℕ
sme_all = 1

abbrev pub sme_any : ℕ
sme_any = 2

abbrev pub sme_first : ℕ
sme_first = 3

abbrev pub sme_last : ℕ
sme_last = 4

abbrev pub sme_first_last : ℕ
sme_first_last = 5

unfoldable pub check_participating : SessionType → ℕ → Bool
check_participating st_initiator sme =
    sme == sme_all || sme == sme_any || sme == sme_first || sme == sme_first_last
check_participating st_forwarder sme = sme == sme_all || sme == sme_any
check_participating st_receiver sme =
    sme == sme_all || sme == sme_any || sme == sme_first_last || sme == sme_last

-- check_lifetime, with the exception that it throws.
unfoldable pub check_lifetime : ℕ → ℕ → Option Exn
check_lifetime lifetime max_lifetime =
    if ltb max_lifetime lifetime
    then some (override_lifetime Code.sc_informational Code.sigfail_lifetime_too_big)
    else none

-- How the block `try { check_lifetime(...); check_authorization(...); }` with its two handlers
-- goes on: with a lifetime, or with the exception that is answered.
pub data Verdict : Type 0 where
  accept : ℕ → Verdict
  refuse : Exn → Verdict

-- What the loop below leaves: the rule, the specifications that other nodes have to install, in
-- order, and the number of keys made.
pub record Placed (P : Platform) : Type 0 where
  pub rule : PolicyRule P
  pub missing : List P.Mspec
  pub keys : ℕ

module _ {P : Platform} where
  -- check_authorization, with the exception that it throws.
  unfoldable pub check_authorization : Node P → NtlpMsg P → Option Exn
  check_authorization d m =
      if d.is_authorized m
      then none
      else some (request_error Code.sc_permanent_failure Code.fail_authentication_failed)

  -- An exception of the first call leaves the block before the second.
  unfoldable pub check_preconditions : Node P → NtlpMsg P → ℕ → ℕ → Verdict
  unfolding check_lifetime check_authorization
  check_preconditions d m lifetime max_lifetime = elim (check_lifetime lifetime max_lifetime) [
    | some _ ↦ accept max_lifetime
    | none ↦ elim (check_authorization d m) [ some e ↦ refuse e | none ↦ accept lifetime ]
  ]

  -- The loop over the metering specifications of a request: a specification that this node
  -- takes part in and can install goes into the rule under a new key, and any other goes to the
  -- missing ones.
  unfoldable pub place : Node P → Bool → List P.Mspec → ℕ → PolicyRule P → Placed P
  place d takes_part [] keys rule = record { rule = rule; missing = []; keys = keys }
  place d takes_part (x ∷ xs) keys rule = elim (takes_part && check d x) [
    | true ↦ place d takes_part xs (suc keys) (set_object (d.rule_key keys) x rule)
    | false ↦
        let later = place d takes_part xs keys rule in record later { missing = x ∷ later.missing }
  ]

  -- The answer to an exception that is a request_error: ntlp_msg::create_error_response.
  unfoldable pub send_error : {S : Type 0} → Exn → NtlpMsg P → M P S (Unit {0})
  send_error (request_error severity code) m = send_message (create_response severity code m)
  send_error (installer_error severity code) m = send_message (create_response severity code m)
  send_error (override_lifetime severity code) m = throw (override_lifetime severity code)
