-- ===== src/Session/Ni.antt =====
-- src/ni_session.cpp: the session of an initiator, its data and the messages that it builds.
pub mod Machine
pub mod Pending
pub mod Retry
pub mod Opening
pub mod Metering
pub mod Starting
use m_nslp.Prelude.{
  ℕ, suc, ◌+◌, ◌-◌, ◌*◌, ◌/◌, Bool, true, false, not, ◌&&◌, Option, none, some, List, [], ◌∷◌, ◌==◌,
  ltb, leb, is_some, u32, if◌then◌else◌,
}
use m_nslp.Platform.{Platform, Flow}
use m_nslp.Msg.Serial.{next_msn}
use m_nslp.Msg.Message.{
  Message, configure, response, refresh, empty, set_session_lifetime, set_msg_sequence_number,
  set_selection_metering_entities, set_message_hop_count, set_mspec_objects, get_session_lifetime,
  is_success, is_response_to,
}
use m_nslp.Msg.Ntlp.{NtlpMsg}
use m_nslp.Rule.{PolicyRule, get_number_mspec_objects, get_number_rule_keys, no_rule}
use m_nslp.Event.{
  Event, Body, ApiConfigure, api_configure, is_timer_of, is_timer, is_api_teardown,
  is_no_next_node_found, matching_response,
}
use m_nslp.Node.{
  Node, send_message, report_async_event, start_timer, install_policy_rules, remove_installed,
}
use m_nslp.Node.Monad.{
  M, Ctx, World, Outcome, ok, fault, assertion_failed, null_pointer, no_return, returned, ◌>>=◌,
  ◌>>◌, pure, stop, assert, act, get_self, put_self,
}
use m_nslp.Session.{SessionType, st_initiator, check_participating, Placed, place}

pub data State : Type 0 where
  close pending metering : State

-- The proxy flags are never read and left out. A timer is its id, 0 if it is stopped.
pub record Ni (P : Platform) : Type 0 where
  pub id : ℕ
  pub msn : ℕ
  pub msg_hop_count : ℕ
  pub rule : PolicyRule P
  pub state : State
  pub mri : Option P.Mri
  pub last_configure : Option (NtlpMsg P)
  pub last_refresh : Option (NtlpMsg P)
  pub lifetime : ℕ
  pub refresh_interval : ℕ
  pub response_timeout : ℕ
  pub configure_counter : ℕ
  pub refresh_counter : ℕ
  pub max_retries : ℕ
  pub response_timer : ℕ
  pub refresh_timer : ℕ

-- `ceil(lifetime / ((max_retries + 0.5) * 1.5))` as a quotient of integers. Both operands of the
-- division are exact, and the rounded quotient of a uint32 lies on the same side of every
-- integer as the exact one. The cast keeps 32 bits.
unfoldable pub refresh_interval_for : ℕ → ℕ → ℕ
refresh_interval_for lifetime max_retries =
    let divisor = 3 * (2 * max_retries + 1) in u32 ((4 * lifetime + (divisor - 1)) / divisor)

-- cal_refresh_interval: `lifetime * 2/3` on uint32.
unfoldable pub cal_refresh_interval : ℕ → ℕ
cal_refresh_interval lifetime = u32 (lifetime * 2) / 3

module _ {P : Platform} where
  -- The constructor, for a session id and a random sequence number.
  unfoldable pub new_ni_session : Node P → ℕ → ℕ → Ni P
  new_ni_session d id msn = record {
    id = id;
    msn = msn;
    msg_hop_count = d.ni_msg_hop_count;
    rule = no_rule;
    state = close;
    mri = none;
    last_configure = none;
    last_refresh = none;
    lifetime = 0;
    refresh_interval = 20;
    response_timeout = d.ni_response_timeout;
    configure_counter = 0;
    refresh_counter = 0;
    max_retries = d.ni_max_retries;
    response_timer = 0;
    refresh_timer = 0;
  }

  abbrev pub flow_of : ApiConfigure P → Flow P.Address
  flow_of e = record {
    source_address = e.source_address;
    source_prefix = 32;
    source_port = e.source_port;
    dest_address = e.dest_address;
    dest_prefix = 32;
    dest_port = e.dest_port;
    protocol = e.protocol;
    flow_label = 0;
    ds_field = 0;
    spi = 0;
    downstream = true;
  }

  -- setup_session without its assertion. The timeout takes one random number.
  unfoldable pub set_up : Node P → ApiConfigure P → Ctx P (Ni P) → Ctx P (Ni P) × List P.Mspec
  set_up d e c = (
    record {
      self = record s {
        mri = some (P.path_coupled (flow_of e));
        lifetime = lifetime;
        refresh_interval = interval;
        response_timeout = d.jitter w.draws interval;
        rule = placed.rule;
      };
      world = record w { draws = suc w.draws; keys = placed.keys };
    },
    placed.missing,
  )
    where
      s : Ni P
      s = c.self

      w : World P
      w = c.world

      lifetime : ℕ
      lifetime = if e.lifetime == 0 then s.lifetime else e.lifetime

      interval : ℕ
      interval = refresh_interval_for lifetime s.max_retries

      placed : Placed P
      placed =
          place d (check_participating st_initiator e.sel_met_entities) e.mspec_objects w.keys
            s.rule

  -- setup_session: `assert( r > 0 )`.
  unfoldable pub setup_session : Node P → ApiConfigure P → M P (Ni P) (List P.Mspec)
  setup_session d e c =
      let (c', missing) = set_up d e c in
      if ltb 0 c'.self.refresh_interval then (ok missing, c') else (fault assertion_failed, c)

  -- The message of build_configure_message, for the session after the sequence number moved on.
  unfoldable pub configure_message : ApiConfigure P → List P.Mspec → Ni P → Message P
  configure_message e missing s = set_mspec_objects missing (
      set_message_hop_count s.msg_hop_count (
        set_selection_metering_entities e.sel_met_entities (
          set_msg_sequence_number s.msn (
            set_session_lifetime (if leb s.lifetime e.lifetime then s.lifetime else e.lifetime)
              (empty configure)))))

  abbrev pub wrap : Ni P → Message P → P.Mri → NtlpMsg P
  wrap s body mri = record { session_id = s.id; body = some body; mri = mri; sii_handle = 0 }

  unfoldable pub build_configure_message : ApiConfigure P → List P.Mspec → M P (Ni P) (NtlpMsg P)
  build_configure_message e missing c = elim (c.self.mri) [
    | none ↦ (fault assertion_failed, c)
    | some mri ↦
        let s = record (c.self) { msn = next_msn (c.self.msn) } in
        (ok (wrap s (configure_message e missing s) mri), record c { self = s })
  ]

  unfoldable pub refresh_message : Ni P → Message P
  refresh_message s =
      set_msg_sequence_number s.msn (set_session_lifetime s.lifetime (empty refresh))

  unfoldable pub build_refresh_message : M P (Ni P) (NtlpMsg P)
  unfolding refresh_message
  build_refresh_message c = elim (c.self.mri) [
    | none ↦ (fault assertion_failed, c)
    | some mri ↦
        let s = record (c.self) { msn = next_msn (c.self.msn) } in
        (ok (wrap s (refresh_message s) mri), record c { self = s })
  ]

  -- `get_last_..._message()`, which asserts that there is one.
  abbrev pub stored : Option (NtlpMsg P) → M P (Ni P) (NtlpMsg P)
  stored none = stop assertion_failed
  stored (some m) = pure m

  -- is_response_to, for the message that was sent.
  abbrev pub answers_body : Message P → Option (Message P) → Bool
  answers_body resp none = false
  answers_body resp (some m) = is_response_to resp m

  unfoldable pub start_response_timer : Node P → M P (Ni P) (Unit {0})
  start_response_timer d = do
    s ← get_self
    i ← start_timer d s.response_timeout
    put_self (record s { response_timer = i })

  unfoldable pub start_refresh_timer : Node P → M P (Ni P) (Unit {0})
  start_refresh_timer d = do
    s ← get_self
    i ← start_timer d s.refresh_interval
    put_self (record s { refresh_timer = i })
