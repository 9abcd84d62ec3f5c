-- ===== src/Node.antt =====
-- The services that src/dispatcher.cpp and src/mnslp_timers.cpp offer to the sessions, over a
-- record of what has been done.
pub mod Monad
pub mod Sending
pub mod Removing
use m_nslp.Prelude.{
  ℕ, suc, ◌+◌, ◌/◌, ◌%◌, ◌≡◌, Bool, true, false, not, ◌&&◌, Option, none, some, List, [], ◌∷◌, ◌==◌,
  ltb, if◌then◌else◌,
}
use Prim.Native.String.{String}
use m_nslp.Platform.{Platform}
use m_nslp.Msg.Code
use m_nslp.Msg.ObjectType
use m_nslp.Msg.Object.{Object, information_code}
use m_nslp.Msg.Message.{
  Message, configure, response, refresh, notify, options, get_object, check_configure,
  check_refresh, check_response,
}
use m_nslp.Msg.Ntlp.{NtlpMsg}
use m_nslp.Rule.{PolicyRule, get_number_rule_keys}
use Monad.{
  M, Ctx, World, Action, Exn, Outcome, ok, thrown, fault, installer_error, assertion_failed, sent,
  timer_started, rules_installed, rules_removed, reported, ◌>>=◌, ◌>>◌, pure, throw, stop, assert,
  act, get_world, put_world,
}

-- What a rule installer does: policy_rule_installer.
pub record Installer (P : Platform) : Type 0 where
  -- `check` returns, and does not throw.
  pub check : P.Mspec → Bool
  pub install : PolicyRule P → Outcome (PolicyRule P)
  pub remove : PolicyRule P → Outcome (PolicyRule P)

-- A node: its configuration and what it stands on.
pub record Node (P : Platform) : Type 0 where
  -- dispatcher::is_authorized, which is virtual.
  pub is_authorized : NtlpMsg P → Bool
  pub installer : Installer P
  -- The ids that protlib gives to the timer messages, in order.
  pub timer_id : ℕ → ℕ
  -- The keys that uuid_generate_time_safe gives, in order.
  pub rule_key : ℕ → ℕ
  -- The random session ids that the constructor of session_id makes, in order, and the random
  -- sequence numbers of the initiators with them.
  pub session_id : ℕ → ℕ
  pub first_msn : ℕ → ℕ
  -- `(int) ceil((rand() % 1000 / 1000.0 + 0.5) * r)` in the arithmetic of `double`, for the
  -- draws of `rand()` in order.
  pub jitter : ℕ → ℕ → ℕ
  -- mnslp_config
  pub is_ms_meter : Bool
  pub ni_response_timeout : ℕ
  pub ni_max_retries : ℕ
  pub ni_msg_hop_count : ℕ
  pub nf_max_session_lifetime : ℕ
  pub nr_max_session_lifetime : ℕ

-- information_code::check, with the header's 12 bits, which the constant type has.
unfoldable pub info_valid : {P : Platform} → Option (Object P) → Bool
info_valid none = true
info_valid (some o) = elim (o.body) [
  | information_code severity _ type ↦ (severity / 16) % 16 == 0 && type % 65536 == 0
  | _ ↦ true
]

-- gistka_mapper::create_api_msg succeeds: the message has a body, and `serialize` finds its
-- objects valid. Metering specifications are taken to be valid.
unfoldable pub is_sendable : {P : Platform} → Option (Message P) → Bool
unfolding info_valid
is_sendable none = false
is_sendable (some m) = elim (m.kind) [
  | configure ↦ check_configure m
  | refresh ↦ check_refresh m
  | response ↦ check_response m && info_valid (get_object ObjectType.information_code m)
  | _ ↦ false
]

-- dispatcher::check
unfoldable pub check : {P : Platform} → Node P → P.Mspec → Bool
check d x = d.is_ms_meter && d.installer.check x

module _ {P : Platform} {S : Type 0} where
  -- dispatcher::send_message, where a message that cannot be serialized fails an assertion.
  unfoldable pub send_message : NtlpMsg P → M P S (Unit {0})
  send_message m = assert (is_sendable m.body) >> act (sent m)

  unfoldable pub report_async_event : String → M P S (Unit {0})
  report_async_event text = act (reported text)

  -- dispatcher::start_timer
  unfoldable pub start_timer : Node P → ℕ → M P S ℕ
  start_timer d seconds c = (
    ok (d.timer_id c.world.timers),
    record c {
      world = record w {
        timers = suc w.timers;
        log = timer_started (d.timer_id w.timers) seconds ∷ w.log;
      };
    },
  )
    where
      w : World P
      w = c.world

  -- dispatcher::install_policy_rules
  unfoldable pub install_policy_rules : Node P → PolicyRule P → M P S (PolicyRule P)
  install_policy_rules d r = elim (d.installer.install r) [
    | ok installed ↦ act (rules_installed r) >> pure installed
    | thrown e ↦ throw e
    | fault f ↦ stop f
  ]

  same_keys : PolicyRule P → PolicyRule P → M P S (Unit {0})
  same_keys result r =
      if get_number_rule_keys result == get_number_rule_keys r
      then pure tt
      else throw
          (installer_error Code.sc_signaling_session_failures Code.sigfail_wrong_conf_message)

  -- dispatcher::remove_policy_rules
  unfoldable pub remove_policy_rules : Node P → PolicyRule P → M P S (Unit {0})
  unfolding same_keys
  remove_policy_rules d r = act (rules_removed r) >> elim (d.installer.remove r) [
    | ok result ↦ same_keys result r
    | thrown e ↦ throw e
    | fault f ↦ stop f
  ]

  -- The guard that the sessions put before it.
  unfoldable pub remove_installed : Node P → PolicyRule P → M P S (Unit {0})
  unfolding remove_policy_rules
  remove_installed d r = if ltb 0 (get_number_rule_keys r) then remove_policy_rules d r else pure tt
