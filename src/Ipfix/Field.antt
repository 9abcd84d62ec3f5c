-- ===== src/Ipfix/Field.antt =====
-- src/msg/mnslp_ipfix_field.cpp: the keys of fields, and the coding of values. Whether the host
-- keeps the low byte of a number first is a parameter; `htons`, `htonl` and HTONLL then turn the
-- bytes round.
pub mod RoundTrip
use m_nslp.Prelude.{
  ℕ, zero, suc, ◌+◌, ◌*◌, ◌/◌, ◌%◌, Bool, true, false, ◌&&◌, ◌||◌, not, Option, none, some, List,
  [], ◌∷◌, ◌++◌, ltb, ◌==◌, length, if◌then◌else◌,
}
use m_nslp.Ipfix.{
  Coding, int, uint, bytes, string, float, ntp, ipaddr, FieldType, Value, unset, int8, int16, int32,
  int64, octets, chars, value_length, Result, value, bad_argument,
}

pub record FieldKey : Type 0 where
  pub eno : ℕ
  pub ftype : ℕ

-- `eno * 1000 + ftype`, by which keys are compared, where it fits into an `int`.
abbrev pub weight : FieldKey → ℕ
weight k = k.eno * 1000 + k.ftype

-- mnslp_ipfix_field_key::operator<
abbrev pub key_lt : FieldKey → FieldKey → Bool
key_lt a b = ltb (weight a) (weight b)

-- mnslp_ipfix_field_key::operator==
abbrev pub key_eq : FieldKey → FieldKey → Bool
key_eq a b = a.eno == b.eno && a.ftype == b.ftype

abbrev pub bytes_eq : List ℕ → List ℕ → Bool
bytes_eq [] [] = true
bytes_eq (a ∷ xs) (b ∷ ys) = a == b && bytes_eq xs ys
bytes_eq _ _ = false

-- mnslp_ipfix_value_field::operator==
unfoldable pub value_eq : Value → Value → Bool
value_eq unset unset = true
value_eq (int8 a) (int8 b) = a == b
value_eq (int16 a) (int16 b) = a == b
value_eq (int32 a) (int32 b) = a == b
value_eq (int64 a) (int64 b) = a == b
value_eq (octets xs) (octets ys) = bytes_eq xs ys
value_eq (chars xs) (chars ys) = bytes_eq xs ys
value_eq _ _ = false

-- The bytes of a number of `k` bytes, the low byte first.
abbrev pub little_bytes : ℕ → ℕ → List ℕ
little_bytes zero n = []
little_bytes (suc k) n = n % 256 ∷ little_bytes k (n / 256)

abbrev pub little_value : List ℕ → ℕ
little_value [] = 0
little_value (b ∷ bs) = b + 256 * little_value bs

abbrev pub turn : List ℕ → List ℕ
turn [] = []
turn (b ∷ bs) = turn bs ++ b ∷ []

-- `memcpy` from a number of the host, or from what `hton` makes of it.
abbrev pub low_first : Bool → Bool → Bool
low_first host_little relay = relay && host_little

unfoldable pub write : Bool → Bool → ℕ → ℕ → List ℕ
write host_little relay k n =
    if low_first host_little relay then little_bytes k n else turn (little_bytes k n)

-- `memcpy` to a number of the host, and `ntoh`.
unfoldable pub read : Bool → Bool → List ℕ → ℕ
read host_little relay bs =
    if low_first host_little relay then little_value bs else little_value (turn bs)

abbrev pub fill : ℕ → List ℕ
fill zero = []
fill (suc n) = 0xff ∷ fill n

abbrev pub blank : ℕ → List ℕ
blank zero = []
blank (suc n) = 0 ∷ blank n

-- The bytes for a value of another length than 1, 2, 4 and 8. A number that was not set is 0.
abbrev pub encode_other : ℕ → List ℕ
encode_other n = if n == 1 || n == 2 || n == 4 || n == 8 then blank n else fill n

-- ipfix_encode_int: what is written to `out`.
unfoldable pub encode_int : Bool → Bool → Value → List ℕ
unfolding write
encode_int host_little relay (int8 n) = n % 256 ∷ []
encode_int host_little relay (int16 n) = write host_little relay 2 n
encode_int host_little relay (int32 n) = write host_little relay 4 n
encode_int host_little relay (int64 n) = write host_little relay 8 n
encode_int host_little relay unset = encode_other 0
encode_int host_little relay (octets bs) = encode_other (length bs)
encode_int host_little relay (chars cs) = encode_other (length cs)

-- ipfix_encode_bytes. `none` stands for a `memcpy` from a null pointer.
unfoldable pub encode_bytes : Value → Option (List ℕ)
encode_bytes (octets bs) = some bs
encode_bytes unset = some []
encode_bytes _ = none

-- get_ipfix_value_field for a number of the size: its field has to have that length.
abbrev pub number_field : FieldType → ℕ → (ℕ → Value) → ℕ → Result Value
number_field t size make n = if t.length == size then value (make n) else bad_argument

-- get_ipfix_value_field for bytes
unfoldable pub bytes_field : FieldType → List ℕ → Result Value
bytes_field t bs = elim (t.coding) [
  | ipaddr ↦ if t.length == length bs then value (octets bs) else bad_argument
  | bytes ↦
      if t.length == length bs
      then value (octets bs)
      else if t.length == 65535
      then value (octets bs)
      else bad_argument
  | _ ↦ bad_argument
]

-- get_ipfix_value_field for characters
unfoldable pub chars_field : FieldType → List ℕ → Result Value
chars_field t cs = elim (t.coding) [ string ↦ value (chars cs) | _ ↦ bad_argument ]

-- ipfix_decode_int on the `len` bytes of `in`.
unfoldable pub decode_int : FieldType → Bool → Bool → List ℕ → Result Value
unfolding read
decode_int t host_little relay src =
    if length src == 1
    then number_field t 1 int8 (little_value src)
    else if length src == 2
    then number_field t 2 int16 (read host_little relay src)
    else if length src == 4
    then number_field t 4 int32 (read host_little relay src)
    else if length src == 8
    then number_field t 8 int64 (read host_little relay src)
    else value unset

-- ipfix_decode_float, which makes a value of an integer.
unfoldable pub decode_float : FieldType → Bool → Bool → List ℕ → Result Value
unfolding read
decode_float t host_little relay src =
    if length src == 4
    then number_field t 4 int32 (read host_little relay src)
    else if length src == 8
    then number_field t 8 int64 (read host_little relay src)
    else value unset

-- decode: strings are decoded as bytes.
unfoldable pub decode : FieldType → Bool → Bool → List ℕ → Result Value
unfolding decode_int decode_float bytes_field
decode t host_little relay src = elim (t.coding) [
  | int ↦ decode_int t host_little relay src
  | uint ↦ decode_int t host_little relay src
  | ntp ↦ decode_int t host_little relay src
  | float ↦ decode_float t host_little relay src
  | _ ↦ bytes_field t src
]
