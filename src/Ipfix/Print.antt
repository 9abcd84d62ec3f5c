-- ===== src/Ipfix/Print.antt =====
-- The printing of values, by which they get into the commands for a meter:
-- src/msg/mnslp_ipfix_field.cpp. A function that prints writes into a buffer of a size; `none`
-- stands for memory outside the buffer or behind a null pointer, or for a buffer that is read
-- though nothing was written to it.
pub mod Digits
use Prim.Native.Nat.{◌^◌}
use m_nslp.Prelude.{
  ℕ, zero, suc, ◌+◌, ◌-◌, ◌*◌, ◌/◌, ◌%◌, Bool, true, false, ◌||◌, Option, none, some, List, [], ◌∷◌,
  ◌++◌, ltb, leb, ◌==◌, length, if◌then◌else◌,
}
use m_nslp.Rule.{Name}
use m_nslp.Wire.Object.{take}
use m_nslp.Netmate.Names.{codes, decimal}
use m_nslp.Ipfix.{
  Coding, int, uint, bytes, string, float, ntp, ipaddr, FieldType, Value, unset, int8, int16, int32,
  int64, octets, chars, value_length,
}

-- `snprintf` of a text that has no zero byte: it is cut off to leave room for one.
unfoldable pub snprintf : ℕ → Name → Option Name
snprintf zero text = none
snprintf (suc size) text = some (take size text)

-- get_value_int8, get_value_int16, get_value_int32 and get_value_int64: a member that was not set
-- is 0.
abbrev pub get_value_int : Value → ℕ
get_value_int (int8 n) = n
get_value_int (int16 n) = n
get_value_int (int32 n) = n
get_value_int (int64 n) = n
get_value_int _ = 0

-- `%d` or `%lld` of the bits of a number of `w` bits.
unfoldable pub signed_text : ℕ → ℕ → Name
signed_text w n = if ltb n (2 ^ (w - 1)) then decimal n else b'-' ∷ decimal (2 ^ w - n)

-- ipfix_snprint_int: numbers of one and two bytes are promoted without a sign.
unfoldable pub snprint_int : ℕ → Value → Option Name
unfolding snprintf signed_text
snprint_int size v =
    if value_length v == 1 || value_length v == 2
    then snprintf size (decimal (get_value_int v))
    else if value_length v == 4
    then snprintf size (signed_text 32 (get_value_int v))
    else if value_length v == 8
    then snprintf size (signed_text 64 (get_value_int v))
    else snprintf size (codes "err")

-- ipfix_snprint_uint
unfoldable pub snprint_uint : ℕ → Value → Option Name
unfolding snprintf
snprint_uint size v =
    if value_length v == 1 || value_length v == 2 || value_length v == 4 || value_length v == 8
    then snprintf size (decimal (get_value_int v))
    else snprintf size (codes "err")

abbrev pub hex_digit : ℕ → ℕ
hex_digit n = if ltb n 10 then 48 + n else 87 + n

-- `%02x`
abbrev pub hex_byte : ℕ → Name
hex_byte b = hex_digit (b / 16 % 16) ∷ hex_digit (b % 16) ∷ []

abbrev pub hex_bytes : List ℕ → Name
hex_bytes [] = []
hex_bytes (b ∷ bs) = hex_byte b ++ hex_bytes bs

-- `while ( ((len * 2) + 2) > size ) len--;`
unfoldable pub shrink : ℕ → ℕ → ℕ
shrink zero size = zero
shrink (suc len) size =
    let less = shrink len size in if ltb size (2 * suc len + 2) then less else suc len

-- The text and the zero byte after it, if they fit into the buffer.
abbrev pub if_it_fits : ℕ → Name → Option Name
if_it_fits size text = if ltb (length text) size then some text else none

-- ipfix_snprint_bytes
unfoldable pub snprint_bytes : ℕ → Value → Option Name
unfolding snprintf shrink
snprint_bytes size v = if ltb size 4 then snprintf size (codes "err") else written v
  where
    written : Value → Option Name
    written (octets bs) =
        if_it_fits size (codes "0x" ++ hex_bytes (take (shrink (length bs) size) bs))
    written unset = if_it_fits size (codes "0x")
    written (chars []) = if_it_fits size (codes "0x")
    written _ = none

-- The text up to the first zero byte, if there is one.
abbrev pub c_string : List ℕ → Option Name
c_string [] = none
c_string (c ∷ cs) = if c == 0 then some [] else before c (c_string cs)
  where
    before : ℕ → Option Name → Option Name
    before c none = none
    before c (some s) = some (c ∷ s)

-- ipfix_snprint_string
unfoldable pub snprint_string : ℕ → Value → Option Name
unfolding snprintf
snprint_string size (chars cs) = elim (c_string cs) [
  | some s ↦ snprintf size s
  | none ↦ if ltb (length cs) size then some cs else snprintf size (codes "err")
]
snprint_string size unset = if ltb 0 size then some [] else snprintf size (codes "err")
snprint_string size v = none

-- `%x` of a number of two bytes.
abbrev pub hex16 : ℕ → Name
hex16 n =
    if ltb n 0x10
    then hex_digit n ∷ []
    else if ltb n 0x100
    then hex_byte n
    else if ltb n 0x1000
    then hex_digit (n / 0x100) ∷ hex_byte n
    else hex_byte (n / 0x100) ++ hex_byte n

abbrev pub colon_before : Bool → Name → Name
colon_before first text = if first then text else b':' ∷ text

-- The groups of an address of 16 bytes.
abbrev pub groups : Bool → List ℕ → Name
groups first (a ∷ b ∷ rest) = colon_before first (hex16 (a * 0x100 + b)) ++ groups false rest
groups first _ = []

abbrev pub dotted : Bool → List ℕ → Name
dotted first [] = []
dotted first (a ∷ rest) = (if first then decimal a else b'.' ∷ decimal a) ++ dotted false rest

-- ipfix_snprint_ipaddr
unfoldable pub snprint_ipaddr : ℕ → Value → Option Name
unfolding snprintf snprint_bytes
snprint_ipaddr size (octets bs) =
    if length bs == 4
    then snprintf size (dotted true bs)
    else if length bs == 16
    then snprintf size (groups true bs)
    else snprint_bytes size (octets bs)
snprint_ipaddr size v =
    if value_length v == 4 || value_length v == 16 then none else snprint_bytes size v

-- The text that the C library makes of a number of 4 or 8 bytes that is converted to floating point.
abbrev pub FloatText : Type 0
FloatText = ℕ → ℕ → Name

-- ipfix_snprint_float
unfoldable pub snprint_float : FloatText → ℕ → Value → Option Name
unfolding snprintf
snprint_float float_text size v =
    if value_length v == 4 || value_length v == 8
    then snprintf size (float_text (value_length v) (get_value_int v))
    else snprintf size (codes "err")

-- snprint
unfoldable pub snprint : FloatText → FieldType → ℕ → Value → Option Name
unfolding snprint_int snprint_uint snprint_float snprint_ipaddr snprint_string snprint_bytes
snprint float_text t size v = elim (t.coding) [
  | int ↦ snprint_int size v
  | uint ↦ snprint_uint size v
  | ntp ↦ snprint_uint size v
  | float ↦ snprint_float float_text size v
  | ipaddr ↦ snprint_ipaddr size v
  | string ↦ snprint_string size v
  | _ ↦ snprint_bytes size v
]

-- The size of the buffer: the length of the field is a number of 64 bits here.
abbrev pub buffer_size : FieldType → ℕ
buffer_size t = elim (t.coding) [
  | ipaddr ↦ if t.length == 4 then 16 else 46
  | _ ↦ (t.length + 1) % 2 ^ 64
]

-- print_value
unfoldable pub print_value : FloatText → FieldType → Value → Option Name
unfolding snprint
print_value float_text t v = snprint float_text t (buffer_size t) v
