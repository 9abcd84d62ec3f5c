-- ===== src/Ipfix/Record.antt =====
-- src/msg/mnslp_ipfix_data_record.cpp, and the reading of data records in
-- src/msg/mnslp_ipfix_message.cpp. The std::map of a record is the list of its entries in
-- ascending order of keys.
pub mod Laws
pub mod Sets
pub mod Endless
use m_nslp.Prelude.{
  ℕ, zero, suc, ◌+◌, ◌-◌, ◌*◌, Bool, true, false, ◌&&◌, not, Option, none, some, List, [], ◌∷◌,
  ◌++◌, ◌||◌, ltb, leb, ◌==◌, length, if◌then◌else◌,
}
use m_nslp.Ipfix.{FieldType, Value, value_length, Result, value, bad_argument}
use m_nslp.Ipfix.Field.{FieldKey, key_lt, value_eq, decode}
use m_nslp.Ipfix.Template.{
  TemplateField, Template, get_numfields, get_field, Fetched, fetched, invalid_number, past_end,
}
use m_nslp.Wire.Object.{take, drop}

pub record DataRecord : Type 0 where
  pub template_id : ℕ
  pub field_data : List (FieldKey × Value)

-- `insert` of a std::map, which keeps an entry that is there.
unfoldable pub insert : FieldKey → Value → List (FieldKey × Value) → List (FieldKey × Value)
insert id v [] = (id, v) ∷ []
insert id v ((k, w) ∷ rest) =
    let later = insert id v rest in
    if key_lt k id
    then (k, w) ∷ later
    else if key_lt id k
    then (id, v) ∷ (k, w) ∷ rest
    else (k, w) ∷ rest

-- `find` of a std::map.
unfoldable pub find : FieldKey → List (FieldKey × Value) → Option Value
find id [] = none
find id ((k, v) ∷ rest) =
    let later = find id rest in if key_lt k id then later else if key_lt id k then none else some v

-- insert_field
unfoldable pub insert_field : FieldKey → Value → DataRecord → DataRecord
unfolding insert
insert_field k v r = record r { field_data = insert k v r.field_data }

-- The value that `find` stops at.
abbrev pub found_value : Option Value → Result Value
found_value none = bad_argument
found_value (some v) = value v

-- get_field
unfoldable pub get_value : FieldKey → DataRecord → Result Value
unfolding find
get_value k r = found_value (find k r.field_data)

abbrev pub get_num_fields : DataRecord → ℕ
get_num_fields r = length r.field_data

-- get_length
unfoldable pub get_length : FieldKey → DataRecord → Result ℕ
unfolding get_value
get_length k r = measured (get_value k r)
  where
    measured : Result Value → Result ℕ
    measured bad_argument = bad_argument
    measured (value v) = value (value_length v)

-- clear
abbrev pub clear : DataRecord → DataRecord
clear r = record r { field_data = [] }

abbrev next_test : Result Value → Value → Result Bool → Result Bool
next_test bad_argument v later = bad_argument
next_test (value w) v later = if value_eq w v then later else value false

-- The loop of operator==, over the fields of the left side.
unfoldable pub fields_equal : List (FieldKey × Value) → DataRecord → Result Bool
unfolding get_value value_eq
fields_equal [] rhs = value true
fields_equal ((k, v) ∷ rest) rhs = next_test (get_value k rhs) v (fields_equal rest rhs)

-- operator==
unfoldable pub equals : DataRecord → DataRecord → Result Bool
unfolding fields_equal
equals r rhs = fields_equal r.field_data rhs

-- What reading a data record does.
pub data Reading : Type 0 where
  -- The record, and the number of bytes that were read.
  read_record : DataRecord → ℕ → Reading
  -- mnslp_ipfix_bad_argument
  throws : Reading
  -- Memory outside the message, or past the end of a vector, is read.
  overrun : Reading

-- The bytes of one number of two bytes, in network order or in that of the host.
abbrev pub two_bytes : Bool → List ℕ → Option ℕ
two_bytes high_first (a ∷ b ∷ rest) = some (if high_first then a * 256 + b else b * 256 + a)
two_bytes high_first _ = none

abbrev pub long_prefix : Option ℕ → Option (ℕ × ℕ)
long_prefix none = none
long_prefix (some n) = some (n, 3)

-- A prefix of one byte, or of three if the first is 255.
abbrev pub read_prefix : Bool → List ℕ → Option (ℕ × ℕ)
read_prefix high_first [] = none
read_prefix high_first (b ∷ rest) =
    if b == 255 then long_prefix (two_bytes high_first rest) else some (b, 1)

-- The length of a field, with the number of bytes of the prefix that holds it if the template has
-- the length 65535. `none` stands for reading outside the message.
abbrev pub field_length : Bool → ℕ → List ℕ → Option (ℕ × ℕ)
field_length high_first flength src =
    if flength == 65535 then read_prefix high_first src else some (flength, 0)

abbrev pub key_of : FieldType → FieldKey
key_of t = record { eno = t.eno; ftype = t.ftype }

-- What is done with the next field of a record, and then with the rest.
abbrev pub take_value : FieldKey → DataRecord → (DataRecord → Reading) → Result Value → Reading
take_value k r go_on bad_argument = throws
take_value k r go_on (value v) = go_on (insert_field k v r)

abbrev pub take_field :
    Bool
    → Bool
    → TemplateField
    → ℕ
    → ℕ
    → List ℕ
    → DataRecord
    → (ℕ → ℕ → List ℕ → DataRecord → Reading)
    → Option (ℕ × ℕ)
    → Reading
take_field host_little network f bytesleft nread src r go_on none = overrun
take_field host_little network f bytesleft nread src r go_on (some (len, prefix)) =
    if ltb bytesleft len
    then throws
    else if ltb (length (drop prefix src)) len
    then overrun
    else take_value (key_of f.elem_type) r
        (λ next. go_on (bytesleft - len) (nread + prefix + len) (drop len (drop prefix src)) next)
        (decode f.elem_type host_little network (take len (drop prefix src)))

-- Numbers are read in network order, or in the order of the host.
abbrev pub high_first : Bool → Bool → Bool
high_first host_little network = network || not host_little

abbrev pub read_field_at :
    Bool
    → Bool
    → ℕ
    → ℕ
    → List ℕ
    → DataRecord
    → (ℕ → ℕ → List ℕ → DataRecord → Reading)
    → Fetched
    → Reading
read_field_at host_little network bytesleft nread src r go_on invalid_number = throws
read_field_at host_little network bytesleft nread src r go_on past_end = overrun
read_field_at host_little network bytesleft nread src r go_on (fetched f) =
    take_field host_little network f bytesleft nread src r go_on
      (field_length (high_first host_little network) f.flength src)

-- The loop of mnslp_ipfix_decode_datarecord from field `i` on, `count` fields. `src` is the message
-- from the record on, of which `bytesleft` bytes belong to the set.
unfoldable pub read_fields : Bool → Bool → Template → ℕ → ℕ → ℕ → ℕ → List ℕ → DataRecord → Reading
read_fields host_little network t zero i bytesleft nread src r = read_record r nread
read_fields host_little network t (suc count) i bytesleft nread src r =
    read_field_at host_little network bytesleft nread src r
      (λ left read rest next. read_fields host_little network t count (suc i) left read rest next)
      (get_field i t)

-- mnslp_ipfix_decode_datarecord
unfoldable pub decode_datarecord : Bool → Bool → Template → ℕ → List ℕ → Reading
unfolding read_fields
decode_datarecord host_little network t buflen src =
    read_fields host_little network t (get_numfields t) 0 buflen 0 src
      (record { template_id = t.tid; field_data = [] })

-- What reading a data set does.
pub data SetReading : Type 0 where
  read_set : List DataRecord → SetReading
  set_throws set_overrun : SetReading
  -- The fuel was not enough.
  endless : SetReading

abbrev pub take_record : (DataRecord → ℕ → SetReading) → Reading → SetReading
take_record go_on throws = set_throws
take_record go_on overrun = set_overrun
take_record go_on (read_record r bytes) = go_on r bytes

-- The loop of mnslp_ipfix_import over the records of a data set. `bytesleft` may fall below 0 in the
-- source, which ends the loop as 0 does.
unfoldable pub read_data_set :
    ℕ → Bool → Bool → Template → ℕ → List ℕ → List DataRecord → SetReading
read_data_set fuel host_little network t zero src records = read_set records
read_data_set zero host_little network t (suc left) src records = endless
read_data_set (suc fuel) host_little network t (suc left) src records =
    take_record
      (λ r bytes.
        read_data_set fuel host_little network t (suc left - bytes) (drop bytes src)
          (records ++ r ∷ []))
      (decode_datarecord host_little network t (suc left) src)
