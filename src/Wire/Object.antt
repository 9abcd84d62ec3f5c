-- ===== src/Wire/Object.antt =====
-- src/msg/mnslp_object.cpp and the bodies in src/msg/information_code.cpp, session_lifetime.cpp,
-- msg_sequence_number.cpp, message_hop_count.cpp, selection_metering_entities.cpp and
-- mnslp_ipfix_message.cpp: objects on the wire. The coding is always protocol_v1, and
-- `check_ser_args` throws for an object that `check` refuses.
pub mod Words
pub mod RoundTrip
pub mod Reading
use m_nslp.Prelude.{
  ℕ, zero, suc, ◌+◌, ◌*◌, ◌/◌, ◌%◌, ◌-◌, Bool, true, false, ◌&&◌, Option, none, some, List, [], ◌∷◌,
  ◌++◌, ltb, leb, ◌==◌, length, if◌then◌else◌,
}
use m_nslp.Platform.{Platform}
use m_nslp.Msg.ObjectType
use m_nslp.Msg.Object.{
  Treatment, tr_mandatory, tr_optional, tr_forward, tr_reserved, Object, Body, information_code,
  selection_metering_entities, message_hop_count, msg_sequence_number, session_lifetime,
  ipfix_message, object_type,
}
use m_nslp.Wire.{
  NetMsg, Import, read_as, bad_import, lost, Codec, zeros, padding, Fault, too_short, wrong_subtype,
  invalid_object, Parse, parsed, refused, escaped, unfinished, Output, wrote, throws,
}

abbrev pub treatment_bits : Treatment → ℕ
treatment_bits tr_mandatory = 0
treatment_bits tr_optional = 1
treatment_bits tr_forward = 2
treatment_bits tr_reserved = 3

-- `treatment_t(header_raw >> 30)`
unfoldable pub treatment_of : ℕ → Treatment
treatment_of n =
    if n == 0
    then tr_mandatory
    else if n == 1
    then tr_optional
    else if n == 2
    then tr_forward
    else tr_reserved

-- extract_object_type: `(header_raw >> 16) & 0xFFF`
abbrev pub extract_object_type : ℕ → ℕ
extract_object_type raw = raw / 0x1_0000 % 0x1000

-- What serialize_header writes. The three fields do not overlap, since `check` lets only types
-- of 12 bits through and a quarter of a `uint16` has 14 bits, so `|` is `+`.
abbrev pub header_word : Treatment → ℕ → ℕ → ℕ
header_word t type body_length = treatment_bits t * 0x4000_0000 + type * 0x1_0000 + body_length / 4

pub record Header : Type 0 where
  pub treatment : Treatment
  pub object_type : ℕ
  pub body_length : ℕ

-- The subclasses that register_known_ies registers for objects.
pub data Class : Type 0 where
  code_class entities_class hops_class sequence_class lifetime_class mspec_class : Class

abbrev pub class_type : Class → ℕ
class_type code_class = ObjectType.information_code
class_type entities_class = ObjectType.selection_metering_entities
class_type hops_class = ObjectType.message_hop_count
class_type sequence_class = ObjectType.msg_sequence_number
class_type lifetime_class = ObjectType.session_lifetime
class_type mspec_class = ObjectType.ipfix_message

-- `new_instance(cat_mnslp_object, type, 0)` with the registered classes.
unfoldable pub class_of : ℕ → Option Class
class_of type =
    if type == ObjectType.session_lifetime
    then some lifetime_class
    else if type == ObjectType.information_code
    then some code_class
    else if type == ObjectType.message_hop_count
    then some hops_class
    else if type == ObjectType.selection_metering_entities
    then some entities_class
    else if type == ObjectType.msg_sequence_number
    then some sequence_class
    else if type == ObjectType.ipfix_message
    then some mspec_class
    else none

-- The fields of a header, if the buffer holds as many bytes as it says.
abbrev pub header_fields : Option (ℕ × List ℕ) → Option (Header × List ℕ)
header_fields none = none
header_fields (some (raw, rest)) =
    if ltb (length rest) (raw % 0x1000 * 4)
    then none
    else some (
      record {
        treatment = treatment_of (raw / 0x4000_0000);
        object_type = extract_object_type raw;
        body_length = raw % 0x1000 * 4;
      },
      rest,
    )

-- deserialize_header. `none` stands for `false`, which puts an IEMsgTooShort on the list.
unfoldable pub deserialize_header : NetMsg → List ℕ → Option (Header × List ℕ)
deserialize_header N src = header_fields (N.read32 src)

-- The bytes that follow what the import has read are all zero.
abbrev pub all_zero : List ℕ → Bool
all_zero [] = true
all_zero (b ∷ bs) = b == 0 && all_zero bs

abbrev pub take : ℕ → List ℕ → List ℕ
take zero bs = []
take (suc n) [] = []
take (suc n) (b ∷ bs) = b ∷ take n bs

abbrev pub drop : ℕ → List ℕ → List ℕ
drop zero bs = bs
drop (suc n) [] = []
drop (suc n) (b ∷ bs) = drop n bs

-- information_code::check_body
abbrev pub code_valid : ℕ → ℕ → Bool
code_valid severity type = severity / 16 % 16 == 0 && type % 0x1_0000 == 0

module _ {P : Platform} where
  abbrev pub object_of : Treatment → Parse (Body P) → Parse (Object P)
  object_of t (parsed b rest faults) = parsed (record { treatment = t; body = b }) rest faults
  object_of t (refused faults) = refused faults
  object_of t escaped = escaped
  object_of t unfinished = unfinished

module _ (P : Platform) (N : NetMsg) (C : Codec P.Mspec) where
  -- deserialize_body of the classes that hold one number: the length in the header is not
  -- looked at, and nothing catches the error of a buffer that is too short.
  abbrev pub value_body : (ℕ → Body P) → Option (ℕ × List ℕ) → Parse (Body P)
  value_body make none = escaped
  value_body make (some (value, rest)) = parsed (make value) rest []

  -- information_code::deserialize_body
  abbrev pub code_body : Bool → Option (ℕ × List ℕ) → Parse (Body P)
  code_body skip none = escaped
  code_body skip (some (value, rest)) =
      if code_valid severity type
      then parsed (information_code severity code type) rest []
      else if skip
      then parsed (information_code severity code type) rest
          (invalid_object ObjectType.information_code ∷ [])
      else refused (invalid_object ObjectType.information_code ∷ [])
    where
      severity : ℕ
      severity = value / 0x100_0000 % 16

      code : ℕ
      code = value / 0x1_0000 % 256

      type : ℕ
      type = value % 0x1_0000

  -- What deserialize_body of mnslp_ipfix_message does after the import; it puts no error on the
  -- list.
  abbrev pub imported : ℕ → List ℕ → Import P.Mspec → Parse (Body P)
  imported body_length src bad_import = escaped
  imported body_length src lost = unfinished
  imported body_length src (read_as x num_read) =
      if all_zero (drop num_read (take body_length src))
      then parsed (ipfix_message x) (drop body_length src) []
      else refused []

  -- mnslp_ipfix_message::deserialize_body
  abbrev pub mspec_body : ℕ → List ℕ → Parse (Body P)
  mspec_body body_length src = imported body_length src (C.import_body (take body_length src))

  unfoldable pub deserialize_body : Class → Bool → ℕ → List ℕ → Parse (Body P)
  deserialize_body code_class skip body_length src = code_body skip (N.read32 src)
  deserialize_body entities_class skip body_length src =
      value_body selection_metering_entities (N.read32 src)
  deserialize_body hops_class skip body_length src = value_body message_hop_count (N.read32 src)
  deserialize_body sequence_class skip body_length src =
      value_body msg_sequence_number (N.read32 src)
  deserialize_body lifetime_class skip body_length src = value_body session_lifetime (N.read32 src)
  deserialize_body mspec_class skip body_length src = mspec_body body_length src

  -- The body after a header.
  abbrev pub after_header : Class → Bool → Option (Header × List ℕ) → Parse (Object P)
  after_header c skip none = refused (too_short ∷ [])
  after_header c skip (some (h, rest)) =
      object_of h.treatment (deserialize_body c skip h.body_length rest)

  -- mnslp_object::deserialize on an instance of the class.
  unfoldable pub deserialize : Class → Bool → List ℕ → Parse (Object P)
  deserialize c skip src = after_header c skip (deserialize_header N src)

  -- The instance that reads the object.
  abbrev pub as_instance : Option Class → Bool → List ℕ → Parse (Object P)
  as_instance none skip src = refused (wrong_subtype ∷ [])
  as_instance (some c) skip src = deserialize c skip src

  abbrev pub after_peek : Option (ℕ × List ℕ) → Bool → List ℕ → Parse (Object P)
  after_peek none skip src = refused (too_short ∷ [])
  after_peek (some (raw, rest)) skip src = as_instance (class_of (extract_object_type raw)) skip src

  -- MNSLP_IEManager::deserialize_object
  unfoldable pub deserialize_object : Bool → List ℕ → Parse (Object P)
  deserialize_object skip src = after_peek (N.read32 src) skip src

  -- get_serialized_size
  unfoldable pub body_size : Body P → ℕ
  body_size (ipfix_message x) = length (C.content x) + padding (length (C.content x))
  body_size (information_code _ _ _) = 4
  body_size _ = 4

  abbrev pub object_size : Object P → ℕ
  object_size o = 4 + body_size o.body

  -- check_body
  unfoldable pub check_body : Body P → Bool
  check_body (information_code severity code type) = code_valid severity type
  check_body (ipfix_message x) = ltb 0 (length (C.content x))
  check_body _ = true

  -- mnslp_object::check
  unfoldable pub check_object : Object P → Bool
  unfolding check_body
  check_object o = ltb (object_type o) 0x1000 && check_body o.body

  -- serialize_body
  unfoldable pub serialize_body : Body P → List ℕ
  serialize_body (information_code severity code type) =
      N.word8 (severity % 16) ++ N.word8 code ++ N.word16 (type % 0x1_0000)
  serialize_body (selection_metering_entities value) = N.word32 value
  serialize_body (message_hop_count value) = N.word32 value
  serialize_body (msg_sequence_number value) = N.word32 value
  serialize_body (session_lifetime value) = N.word32 value
  serialize_body (ipfix_message x) = C.content x ++ zeros (padding (length (C.content x)))

  -- The bytes of an object that is valid: header and body. The length is a `uint16`.
  abbrev pub object_bytes : Object P → List ℕ
  object_bytes o =
      N.word32 (header_word o.treatment (object_type o) (body_size o.body % 0x1_0000))
      ++ serialize_body o.body

  -- mnslp_object::serialize into a buffer with enough room.
  unfoldable pub serialize : Object P → Output
  unfolding check_object body_size serialize_body
  serialize o = if check_object o then wrote (object_bytes o) else throws
