-- ===== src/Event.antt =====
-- include/events.h: the events that the dispatcher hands to the sessions.
use m_nslp.Prelude.{ℕ, Bool, true, false, ◌&&◌, Option, none, some, List, ◌==◌, if◌then◌else◌}
use m_nslp.Platform.{Platform}
use m_nslp.Msg.Message.{
  Message, Kind, response, is_kind, has_msg_sequence_number, get_msg_sequence_number,
}
use m_nslp.Msg.Ntlp.{NtlpMsg}

-- The attributes of api_configure_event.
pub record ApiConfigure (P : Platform) : Type 0 where
  pub source_address : P.Address
  pub source_port : ℕ
  pub dest_address : P.Address
  pub dest_port : ℕ
  pub protocol : ℕ
  pub mspec_objects : List P.Mspec
  pub lifetime : ℕ
  pub sel_met_entities : ℕ
  pub has_return_queue : Bool

-- The subclasses of event. The API events that no handler looks at carry nothing.
pub data Body (P : Platform) : Type 0 where
  network_notification route_changed_bad no_next_node_found : Body P
  routing_state_check : Option P.Mri → Body P
  msg : NtlpMsg P → (for_this_node : Bool) → Body P
  timer_event : ℕ → Body P
  api_configure : ApiConfigure P → Body P
  api_teardown api_refresh api_notify api_response api_options : Body P

pub record Event (P : Platform) : Type 0 where
  -- `none` is the null pointer.
  pub session_id : Option ℕ
  pub body : Body P

module _ {P : Platform} where
  -- is_timer(evt, t) for the id of `t`.
  abbrev pub is_timer_of : Body P → ℕ → Bool
  is_timer_of (timer_event i) id = i == id
  is_timer_of _ id = false

  abbrev pub is_timer : Body P → Bool
  is_timer (timer_event i) = true
  is_timer _ = false

  abbrev pub is_api_teardown : Body P → Bool
  is_api_teardown api_teardown = true
  is_api_teardown _ = false

  abbrev pub is_no_next_node_found : Body P → Bool
  is_no_next_node_found no_next_node_found = true
  is_no_next_node_found _ = false

  abbrev pub is_route_changed_bad : Body P → Bool
  is_route_changed_bad route_changed_bad = true
  is_route_changed_bad _ = false

  abbrev of_kind : Kind → Option (Message P) → Option (Message P)
  of_kind kind none = none
  of_kind kind (some m) = if is_kind kind m.kind then some m else none

  -- get_configure, get_refresh and get_response of an event: the message, if the event is a
  -- msg_event with a message of that class.
  abbrev pub get_message : Kind → Body P → Option (Message P)
  get_message kind (msg m _) = of_kind kind m.body
  get_message kind _ = none

  abbrev answers : ℕ → Option (Message P) → Option (Message P)
  answers msn none = none
  answers msn (some r) =
      if has_msg_sequence_number r && msn == get_msg_sequence_number r then some r else none

  -- is_mnslp_response(evt, msg), with the response.
  unfoldable pub matching_response : Body P → NtlpMsg P → Option (Message P)
  matching_response b m = elim (m.body) [
    | none ↦ none
    | some sent ↦
        if has_msg_sequence_number sent
        then answers (get_msg_sequence_number sent) (get_message response b)
        else none
  ]

  -- is_invalid_mnslp_msg
  abbrev pub is_invalid : Body P → Bool
  is_invalid (msg m _) = elim (m.body) [ none ↦ true | some _ ↦ false ]
  is_invalid _ = false
