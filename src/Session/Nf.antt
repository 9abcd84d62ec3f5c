-- ===== src/Session/Nf.antt =====
-- src/nf_session.cpp: the session of a forwarder, its data and the messages that it builds.
pub mod Machine
pub mod Refreshing
pub mod Replacing
pub mod Pending
pub mod Opening
pub mod Refresh
use m_nslp.Prelude.{ℕ, Bool, true, false, Option, none, some, List, leb, if◌then◌else◌}
use m_nslp.Platform.{Platform, Flow}
use m_nslp.Msg.Code
use m_nslp.Msg.Serial.{next_msn}
use m_nslp.Msg.Message.{
  Message, configure, refresh, empty, set_session_lifetime, set_msg_sequence_number,
  set_selection_metering_entities, set_message_hop_count, set_mspec_objects, get_session_lifetime,
  get_msg_sequence_number, get_selection_metering_entities, get_message_hop_count,
  get_mspec_objects,
}
use m_nslp.Msg.Ntlp.{NtlpMsg}
use m_nslp.Rule.{PolicyRule, no_rule}
use m_nslp.Node.{Node, start_timer}
use m_nslp.Node.Monad.{
  M, Ctx, World, Outcome, ok, thrown, fault, request_error, assertion_failed, null_pointer, ◌>>=◌,
  ◌>>◌, pure, stop, throw, assert, get_self, put_self,
}
use m_nslp.Session.{st_forwarder, check_participating, Placed, place}

pub data State : Type 0 where
  close pending metering : State

-- The proxy flag is never read and left out. A timer is its id, 0 if it is stopped.
pub record Nf (P : Platform) : Type 0 where
  pub id : ℕ
  pub msn : ℕ
  pub rule : PolicyRule P
  pub state : State
  pub lifetime : ℕ
  pub max_lifetime : ℕ
  pub response_timeout : ℕ
  pub state_timer : ℕ
  pub response_timer : ℕ
  pub ni_mri : Option P.Mri
  pub nr_mri : Option P.Mri
  pub configure_message : Option (NtlpMsg P)
  pub refresh_message : Option (NtlpMsg P)

module _ {P : Platform} where
  -- The constructor.
  unfoldable pub new_nf_session : ℕ → Nf P
  new_nf_session id = record {
    id = id;
    msn = 0;
    rule = no_rule;
    state = close;
    lifetime = 0;
    max_lifetime = 0;
    response_timeout = 0;
    state_timer = 0;
    response_timer = 0;
    ni_mri = none;
    nr_mri = none;
    configure_message = none;
    refresh_message = none;
  }

  -- set_pc_mri, for the routing information of the event. A path-coupled one that does not
  -- point downstream fails an assertion.
  unfoldable pub set_pc_mri : P.Mri → M P (Nf P) (Unit {0})
  set_pc_mri mri = elim (P.path_coupled? mri) [
    | none ↦ throw (request_error Code.sc_permanent_failure Code.fail_configuration_failed)
    | some flow ↦ assert flow.downstream >> (do
      s ← get_self
      put_self (record s { nr_mri = some (P.path_coupled flow); ni_mri = some (P.invert mri) }))
  ]

  unfoldable pub place_for : Node P → Message P → List P.Mspec → Ctx P (Nf P) → Placed P
  place_for d m objects c =
      place d (check_participating st_forwarder (get_selection_metering_entities m)) objects
        c.world.keys c.self.rule

  -- set_mt_policy_rule. It returns the missing objects.
  unfoldable pub set_mt_policy_rule : Node P → Message P → M P (Nf P) (List P.Mspec)
  set_mt_policy_rule d m c = elim (get_mspec_objects m) [
    | none ↦ (fault null_pointer, c)
    | some objects ↦
        let p = place_for d m objects c in
        (
          ok p.missing,
          record {
            self = record (c.self) { rule = p.rule };
            world = record (c.world) { keys = p.keys };
          },
        )
  ]

  -- The message of build_configure_message.
  unfoldable pub forwarded_configure : Nf P → Message P → List P.Mspec → Message P
  forwarded_configure s c missing = set_mspec_objects missing (
      set_message_hop_count (get_message_hop_count c) (
        set_selection_metering_entities (get_selection_metering_entities c) (
          set_msg_sequence_number (get_msg_sequence_number c) (
            set_session_lifetime
              (if leb s.lifetime (get_session_lifetime c)
                then s.lifetime
                else get_session_lifetime c)
              (empty configure)))))

  abbrev pub wrap : Nf P → Message P → P.Mri → NtlpMsg P
  wrap s body mri = record { session_id = s.id; body = some body; mri = mri; sii_handle = 0 }

  unfoldable pub build_configure_message : Message P → List P.Mspec → M P (Nf P) (NtlpMsg P)
  build_configure_message m missing c = elim (c.self.nr_mri) [
    | none ↦ (fault assertion_failed, c)
    | some mri ↦ (ok (wrap (c.self) (forwarded_configure (c.self) m missing) mri), c)
  ]

  abbrev pub teardown : Nf P → Message P
  teardown s = set_msg_sequence_number (next_msn s.msn) (set_session_lifetime 0 (empty refresh))

  unfoldable pub build_teardown_message : M P (Nf P) (NtlpMsg P)
  build_teardown_message c = elim (c.self.nr_mri) [
    | none ↦ (fault assertion_failed, c)
    | some mri ↦ (
      ok (wrap (c.self) (teardown (c.self)) mri),
      record c { self = record (c.self) { msn = next_msn (c.self.msn) } },
    )
  ]

  -- `get_last_..._message()`, which asserts that there is one.
  abbrev pub stored : Option (NtlpMsg P) → M P (Nf P) (NtlpMsg P)
  stored none = stop assertion_failed
  stored (some m) = pure m

  unfoldable pub start_state_timer : Node P → ℕ → M P (Nf P) (Unit {0})
  start_state_timer d seconds = do
    i ← start_timer d seconds
    s ← get_self
    put_self (record s { state_timer = i })

  unfoldable pub start_response_timer : Node P → ℕ → M P (Nf P) (Unit {0})
  start_response_timer d seconds = do
    i ← start_timer d seconds
    s ← get_self
    put_self (record s { response_timer = i })
