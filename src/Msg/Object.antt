-- ===== src/Msg/Object.antt =====
-- The objects of a message: include/msg/mnslp_object.h and its subclasses
-- (information_code, selection_metering_entities, message_hop_count, msg_sequence_number,
-- session_lifetime, and a metering specification).
use m_nslp.Prelude.{ℕ, Bool, true, false, ◌&&◌, ◌==◌}
use m_nslp.Platform.{Platform}
use m_nslp.Msg.Code
use m_nslp.Msg.ObjectType

-- The two bits of the header that tell a node what to do with an object it does not know.
pub data Treatment : Type 0 where
  tr_mandatory tr_optional tr_forward tr_reserved : Treatment

-- The class of an object with its attributes.
pub data Body (P : Platform) : Type 0 where
  information_code : (severity_class response_code response_object_type : ℕ) → Body P
  selection_metering_entities : ℕ → Body P
  message_hop_count : ℕ → Body P
  msg_sequence_number : ℕ → Body P
  session_lifetime : ℕ → Body P
  ipfix_message : P.Mspec → Body P

pub record Object (P : Platform) : Type 0 where
  pub treatment : Treatment
  pub body : Body P

-- information_code::is_success.
abbrev pub is_success_code : ℕ → ℕ → Bool
is_success_code severity code =
    severity == Code.sc_success && code == Code.suc_successfully_processed

module _ {P : Platform} where
  abbrev pub body_type : Body P → ℕ
  body_type (information_code _ _ _) = ObjectType.information_code
  body_type (selection_metering_entities _) = ObjectType.selection_metering_entities
  body_type (message_hop_count _) = ObjectType.message_hop_count
  body_type (msg_sequence_number _) = ObjectType.msg_sequence_number
  body_type (session_lifetime _) = ObjectType.session_lifetime
  body_type (ipfix_message _) = ObjectType.ipfix_message

  -- Every class passes `true` for its objects but the metering specifications.
  abbrev pub body_unique : Body P → Bool
  body_unique (ipfix_message _) = false
  body_unique (session_lifetime _) = true
  body_unique _ = true

  abbrev pub object_type : Object P → ℕ
  object_type o = body_type o.body

  abbrev pub is_unique : Object P → Bool
  is_unique o = body_unique o.body

  -- `new T(..., mnslp_object::tr_mandatory, ...)`
  abbrev pub mandatory : Body P → Object P
  mandatory b = record { treatment = tr_mandatory; body = b }
