-- ===== src/Msg/Message.antt =====
-- src/msg/mnslp_msg.cpp and the message classes of src/msg/mnslp_configure.cpp,
-- mnslp_refresh.cpp and mnslp_response.cpp.
pub mod Laws
use m_nslp.Prelude.{
  ℕ, suc, ◌+◌, Bool, true, false, not, ◌&&◌, ◌||◌, Option, none, some, List, [], ◌∷◌, ◌==◌, is_some,
  length, u32, if◌then◌else◌,
}
use m_nslp.Platform.{Platform}
use m_nslp.Msg.ObjectType
use m_nslp.Msg.Object.{
  Object, Body, information_code, selection_metering_entities, message_hop_count,
  msg_sequence_number, session_lifetime, ipfix_message, object_type, is_unique, mandatory,
  is_success_code,
}
use m_nslp.Msg.Store.{Key, get, set, get_max_sequence}

-- The subclass of mnslp_msg.
pub data Kind : Type 0 where
  configure response notify options refresh : Kind

-- The MSG_TYPE constants.
abbrev pub msg_type : Kind → ℕ
msg_type configure = 1
msg_type response = 2
msg_type notify = 3
msg_type options = 4
msg_type refresh = 5

-- A `dynamic_cast` to a subclass succeeds.
abbrev pub is_kind : Kind → Kind → Bool
is_kind configure configure = true
is_kind refresh refresh = true
is_kind response response = true
is_kind _ _ = false

pub record Message (P : Platform) : Type 0 where
  pub kind : Kind
  pub objects : List (Key × Object P)

abbrev pub unique_key : ℕ → Key
unique_key type = record { object_type = type; seq_nbr = 1 }

abbrev or_zero : Option ℕ → ℕ
or_zero none = 0
or_zero (some n) = n

abbrev is_mspec_type : ℕ → Bool
is_mspec_type type =
    not (type == ObjectType.message_hop_count)
    && not (type == ObjectType.selection_metering_entities)
    && not (type == ObjectType.msg_sequence_number)
    && not (type == ObjectType.session_lifetime)

module _ {P : Platform} where
  -- A message of the class, with no object.
  abbrev pub empty : Kind → Message P
  empty kind = record { kind = kind; objects = [] }

  unfoldable pub get_object : ℕ → Message P → Option (Object P)
  get_object type m = get (unique_key type) m.objects

  unfoldable pub set_object : Object P → Message P → Message P
  set_object o m = record m { objects = set key o m.objects }
    where
      key : Key
      key = if is_unique o then unique_key (object_type o) else record {
        object_type = object_type o;
        seq_nbr = u32 (get_max_sequence (object_type o) m.objects + 1);
      }

  -- The `dynamic_cast`s behind the getters, with the value that each returns for NULL.
  abbrev msn_value : Option (Object P) → Option ℕ
  msn_value none = none
  msn_value (some o) = elim (o.body) [ msg_sequence_number v ↦ some v | _ ↦ none ]

  abbrev lifetime_value : Option (Object P) → ℕ
  lifetime_value none = 0
  lifetime_value (some o) = elim (o.body) [ session_lifetime v ↦ v | _ ↦ 0 ]

  abbrev sme_value : Option (Object P) → ℕ
  sme_value none = 0
  sme_value (some o) = elim (o.body) [ selection_metering_entities v ↦ v | _ ↦ 0 ]

  abbrev hop_value : Option (Object P) → ℕ
  hop_value none = 0
  hop_value (some o) = elim (o.body) [ message_hop_count v ↦ v | _ ↦ 0 ]

  unfoldable pub has_msg_sequence_number : Message P → Bool
  unfolding get_object
  has_msg_sequence_number m = is_some (msn_value (get_object ObjectType.msg_sequence_number m))

  -- The getter of the subclasses, which returns 0 if there is no such object.
  unfoldable pub get_msg_sequence_number : Message P → ℕ
  unfolding get_object
  get_msg_sequence_number m = or_zero (msn_value (get_object ObjectType.msg_sequence_number m))

  unfoldable pub get_session_lifetime : Message P → ℕ
  unfolding get_object
  get_session_lifetime m = lifetime_value (get_object ObjectType.session_lifetime m)

  unfoldable pub get_selection_metering_entities : Message P → ℕ
  unfolding get_object
  get_selection_metering_entities m =
      sme_value (get_object ObjectType.selection_metering_entities m)

  unfoldable pub get_message_hop_count : Message P → ℕ
  unfolding get_object
  get_message_hop_count m = hop_value (get_object ObjectType.message_hop_count m)

  unfoldable pub set_msg_sequence_number : ℕ → Message P → Message P
  unfolding set_object
  set_msg_sequence_number msn m = set_object (mandatory (msg_sequence_number msn)) m

  unfoldable pub set_session_lifetime : ℕ → Message P → Message P
  unfolding set_object
  set_session_lifetime lifetime m = set_object (mandatory (session_lifetime lifetime)) m

  unfoldable pub set_selection_metering_entities : ℕ → Message P → Message P
  unfolding set_object
  set_selection_metering_entities sme m = set_object (mandatory (selection_metering_entities sme)) m

  unfoldable pub set_message_hop_count : ℕ → Message P → Message P
  unfolding set_object
  set_message_hop_count hops m = set_object (mandatory (message_hop_count hops)) m

  unfoldable pub set_information_code : ℕ → ℕ → ℕ → Message P → Message P
  unfolding set_object
  set_information_code severity code type m =
      set_object (mandatory (information_code severity code type)) m

  -- mnslp_response::is_success
  unfoldable pub is_success : Message P → Bool
  unfolding get_object
  is_success m = go (get_object ObjectType.information_code m)
    where
      go : Option (Object P) → Bool
      go none = false
      go (some o) = elim (o.body) [
        | information_code sev code _ ↦ is_success_code sev code
        | _ ↦ false
      ]

  -- mnslp_response::is_response_to, for a CONFIGURE and for a REFRESH.
  unfoldable pub is_response_to : Message P → Message P → Bool
  unfolding get_msg_sequence_number
  is_response_to resp m = get_msg_sequence_number resp == get_msg_sequence_number m

  abbrev pub mspec_object : P.Mspec → Object P
  mspec_object x = mandatory (ipfix_message x)

  unfoldable pub set_mspec_object : P.Mspec → Message P → Message P
  unfolding set_object
  set_mspec_object x m = set_object (mspec_object x) m

  -- The loops that add a vector of objects, first to last.
  unfoldable pub set_mspec_objects : List P.Mspec → Message P → Message P
  set_mspec_objects [] m = m
  set_mspec_objects (x ∷ xs) m = set_mspec_objects xs (set_mspec_object x m)

  -- `obj->copy()` on the result of a `dynamic_cast`: `none` where it is NULL.
  abbrev push_mspec : Object P → Option (List P.Mspec) → Option (List P.Mspec)
  push_mspec o none = none
  push_mspec o (some xs) = elim (o.body) [ ipfix_message x ↦ some (x ∷ xs) | _ ↦ none ]

  unfoldable pub mspecs_of : List (Key × Object P) → Option (List P.Mspec)
  mspecs_of [] = some []
  mspecs_of ((k, o) ∷ rest) =
      let later = mspecs_of rest in
      if is_mspec_type k.object_type then push_mspec o later else later

  -- mnslp_configure::get_mspec_objects. `none` stands for the call through a null pointer.
  unfoldable pub get_mspec_objects : Message P → Option (List P.Mspec)
  unfolding mspecs_of
  get_mspec_objects m = mspecs_of m.objects

  has_type : ℕ → List (Key × Object P) → Bool
  has_type type [] = false
  has_type type ((k, o) ∷ rest) = k.object_type == type || has_type type rest

  only_types : List (Key × Object P) → Bool
  only_types [] = true
  only_types ((k, o) ∷ rest) = is_response_type k.object_type && only_types rest
    where
      is_response_type : ℕ → Bool
      is_response_type type =
          type == ObjectType.msg_sequence_number
          || type == ObjectType.information_code
          || type == ObjectType.session_lifetime
          || type == ObjectType.ipfix_message

  -- The `check` methods of the three classes that the sessions exchange.
  unfoldable pub check_configure : Message P → Bool
  unfolding has_type
  check_configure m =
      has_type ObjectType.msg_sequence_number m.objects
      && has_type ObjectType.selection_metering_entities m.objects
      && has_type ObjectType.session_lifetime m.objects
      && has_type ObjectType.message_hop_count m.objects

  unfoldable pub check_refresh : Message P → Bool
  unfolding get_object
  check_refresh m =
      length m.objects == 2
      && is_some (get_object ObjectType.msg_sequence_number m)
      && is_some (get_object ObjectType.session_lifetime m)

  unfoldable pub check_response : Message P → Bool
  unfolding only_types
  check_response m = only_types m.objects
