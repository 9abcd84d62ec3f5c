-- ===== src/Wire/Message.antt =====
-- Messages on the wire: src/msg/mnslp_msg.cpp, mnslp_configure.cpp, mnslp_refresh.cpp,
-- mnslp_response.cpp, mnslp_notify.cpp, mnslp_options.cpp, mnslp_ie.cpp, and the use of them in
-- src/gistka_mapper.cpp.
pub mod Rounds
pub mod First
pub mod Writing
pub mod RoundTrip
pub mod Reading
pub mod Malformed
pub mod ErrorResponse
use m_nslp.Prelude.{
  ℕ, zero, suc, ◌+◌, ◌*◌, ◌/◌, ◌%◌, Bool, true, false, ◌&&◌, Option, none, some, List, [], ◌∷◌,
  ◌++◌, ◌==◌, length, is_some, if◌then◌else◌,
}
use m_nslp.Platform.{Platform}
use m_nslp.Msg.ObjectType
use m_nslp.Msg.Object.{Object, object_type, is_unique}
use m_nslp.Msg.Store.{Key, get, get_max_sequence}
use m_nslp.Msg.Message.{
  Kind, configure, response, notify, options, refresh, msg_type, Message, empty, unique_key,
  get_object, set_object, check_configure, check_refresh, check_response,
}
use m_nslp.Wire.{
  NetMsg, Codec, Fault, too_short, wrong_type, duplicate_object, empty_message, Parse, parsed,
  refused, escaped, unfinished, Output, wrote, throws, undefined, then_write,
}
use m_nslp.Wire.Object.{serialize, object_size, deserialize_object}

-- The keys of metering specifications, `count` of them from `i` on: the loop over `i` in
-- serialize.
abbrev pub mspec_keys : ℕ → ℕ → List Key
mspec_keys i zero = []
mspec_keys i (suc count) =
    record { object_type = ObjectType.ipfix_message; seq_nbr = i } ∷ mspec_keys (suc i) count

-- extract_msg_type: `header_raw >> 24`
abbrev pub extract_msg_type : ℕ → ℕ
extract_msg_type raw = raw / 0x100_0000

-- `new_instance(cat_mnslp_msg, type, 0)` with the registered messages.
unfoldable pub kind_of : ℕ → Option Kind
kind_of type =
    if type == 1
    then some configure
    else if type == 2
    then some response
    else if type == 3
    then some notify
    else if type == 4
    then some options
    else if type == 5
    then some refresh
    else none

-- Whether NULL is returned for a fault: unless `skip` is set, the fault ends the parsing.
abbrev pub with_faults : {A : Type 0} → List Fault → Parse A → Parse A
with_faults faults (parsed a rest more) = parsed a rest (faults ++ more)
with_faults faults (refused more) = refused (faults ++ more)
with_faults faults escaped = escaped
with_faults faults unfinished = unfinished

module _ {P : Platform} where
  -- mnslp_notify::check
  unfoldable pub check_notify : Message P → Bool
  unfolding get_object
  check_notify m = is_some (get_object ObjectType.information_code m) && length m.objects == 1

  -- mnslp_options::check
  unfoldable pub check_options : Message P → Bool
  unfolding get_object
  check_options m = length m.objects == 1 && is_some (get_object ObjectType.msg_sequence_number m)

  -- The end of mnslp_msg::deserialize, when no bytes are left.
  abbrev pub finish : Bool → Message P → Parse (Message P)
  finish skip m =
      if length m.objects == 0
      then (if skip then parsed m [] (empty_message ∷ []) else refused (empty_message ∷ []))
      else parsed m [] []

  -- A unique object whose type the message has already.
  unfoldable pub is_duplicate : Object P → Message P → Bool
  unfolding get_object
  is_duplicate o m = is_unique o && is_some (get_object (object_type o) m)

module _ (P : Platform) (N : NetMsg) (C : Codec P.Mspec) where
  -- The objects under the keys, in their order. Where there is no object, serialize_object ends
  -- without a return statement.
  unfoldable pub serialize_keys : List Key → Message P → Output
  serialize_keys [] m = wrote []
  serialize_keys (k ∷ ks) m =
      let rest = serialize_keys ks m in then_write (serialize_object (get k m.objects)) rest
    where
      serialize_object : Option (Object P) → Output
      serialize_object none = undefined
      serialize_object (some o) = serialize P N C o

  -- mnslp_msg::serialize: `check_ser_args` throws for a message that `check` refuses, then the
  -- header is written.
  abbrev pub serialize_header : Bool → Kind → Output
  serialize_header checked kind =
      if checked then wrote (N.word32 (msg_type kind * 0x100_0000)) else throws

  abbrev pub all_mspecs : Message P → List Key
  all_mspecs m = mspec_keys 1 (get_max_sequence ObjectType.ipfix_message m.objects)

  -- The check that the class defines.
  abbrev pub check_message : Message P → Bool
  check_message m = elim (m.kind) [
    | configure ↦ check_configure m
    | response ↦ check_response m
    | notify ↦ check_notify m
    | options ↦ check_options m
    | refresh ↦ check_refresh m
  ]

  -- The keys in the order in which `serialize` of the class writes their objects.
  abbrev pub written_keys : Message P → List Key
  written_keys m = elim (m.kind) [
    | configure ↦
        unique_key ObjectType.msg_sequence_number
        ∷ unique_key ObjectType.session_lifetime
        ∷ unique_key ObjectType.selection_metering_entities
        ∷ unique_key ObjectType.message_hop_count
        ∷ all_mspecs m
    | response ↦
        unique_key ObjectType.msg_sequence_number
        ∷ unique_key ObjectType.information_code
        ∷ unique_key ObjectType.session_lifetime
        ∷ all_mspecs m
    | notify ↦ unique_key ObjectType.information_code ∷ []
    | options ↦ unique_key ObjectType.msg_sequence_number ∷ []
    | refresh ↦
        unique_key ObjectType.msg_sequence_number ∷ unique_key ObjectType.session_lifetime ∷ []
  ]

  -- `serialize` of the five classes.
  unfoldable pub serialize_message : Message P → Output
  unfolding serialize_keys
  serialize_message m =
      then_write (serialize_header (check_message m) m.kind) (serialize_keys (written_keys m) m)

  unfoldable pub sizes : List (Key × Object P) → ℕ
  sizes [] = 0
  sizes ((k, o) ∷ rest) = object_size P N C o + sizes rest

  -- mnslp_msg::get_serialized_size
  unfoldable pub message_size : Message P → ℕ
  unfolding sizes
  message_size m = 4 + sizes m.objects

  -- What a round of the loop does with the object that it has read, and goes on.
  abbrev pub take_object :
      (Message P → List ℕ → Parse (Message P))
      → Bool
      → Message P
      → Parse (Object P)
      → Parse (Message P)
  take_object go_on skip m (refused faults) = refused faults
  take_object go_on skip m escaped = escaped
  take_object go_on skip m unfinished = unfinished
  take_object go_on skip m (parsed o rest faults) =
      if is_duplicate o m
      then (if skip
          then with_faults (faults ++ duplicate_object (object_type o) ∷ [])
              (go_on (set_object o m) rest)
          else refused (faults ++ duplicate_object (object_type o) ∷ []))
      else with_faults faults (go_on (set_object o m) rest)

  -- The loop of mnslp_msg::deserialize, with fuel for its rounds.
  unfoldable pub deserialize_objects : ℕ → Bool → Message P → List ℕ → Parse (Message P)
  deserialize_objects fuel skip m [] = finish skip m
  deserialize_objects zero skip m (b ∷ src) = unfinished
  deserialize_objects (suc fuel) skip m (b ∷ src) =
      take_object (λ next rest. deserialize_objects fuel skip next rest) skip m
        (deserialize_object P N C skip (b ∷ src))

  abbrev pub read_objects : Kind → Bool → List ℕ → Option (ℕ × List ℕ) → Parse (Message P)
  read_objects kind skip src none =
      if skip then parsed (empty kind) src (too_short ∷ []) else refused (too_short ∷ [])
  read_objects kind skip src (some (raw, rest)) =
      deserialize_objects (length rest) skip (empty kind) rest

  -- mnslp_msg::deserialize on an instance of the class. Every round of its loop reads at least
  -- one byte, so the bytes that are left are fuel enough.
  unfoldable pub deserialize_kind : Kind → Bool → List ℕ → Parse (Message P)
  deserialize_kind kind skip src = read_objects kind skip src (N.read32 src)

  abbrev pub as_kind : Option Kind → Bool → List ℕ → Parse (Message P)
  as_kind none skip src = refused (wrong_type ∷ [])
  as_kind (some kind) skip src = deserialize_kind kind skip src

  abbrev pub peeked_kind : Option (ℕ × List ℕ) → Bool → List ℕ → Parse (Message P)
  peeked_kind none skip src = refused (too_short ∷ [])
  peeked_kind (some (raw, rest)) skip src = as_kind (kind_of (extract_msg_type raw)) skip src

  -- MNSLP_IEManager::deserialize_msg
  unfoldable pub deserialize_message : Bool → List ℕ → Parse (Message P)
  deserialize_message skip src = peeked_kind (N.read32 src) skip src

-- What becomes of a payload.
pub data Received (P : Platform) : Type 0 where
  -- A message event, with no message if the payload could not be parsed.
  delivered : Option (Message P) → Received P
  -- The program ends: `assert(!errlist.is_empty())` fails, or nothing catches an exception.
  aborted : Received P

abbrev pub outcome : {P : Platform} → Parse (Message P) → Option (Received P)
outcome (parsed m rest faults) = some (delivered (some m))
outcome (refused []) = some aborted
outcome (refused (fault ∷ faults)) = some (delivered none)
outcome escaped = some aborted
outcome unfinished = none

-- gistka_mapper::map_api_receive_message from the payload on. `none` stands for a loop that does
-- not end, or undefined behaviour.
unfoldable pub receive : (P : Platform) → NetMsg → Codec P.Mspec → List ℕ → Option (Received P)
receive P N C src = outcome (deserialize_message P N C false src)
