-- ===== src/Ipfix/Field/RoundTrip.antt =====
-- Values that are encoded and decoded: src/msg/mnslp_ipfix_field.cpp.
use m_nslp.Prelude.{
  ℕ, zero, suc, ◌+◌, ◌*◌, ◌/◌, ◌%◌, ◌<◌, ◌≡◌, ◌⊎◌, inl, inr, refl, sym, ap, ◌∙◌, Bool, true, false,
  List, [], ◌∷◌, ◌++◌, arith, length, length-append, if◌then◌else◌,
}
use m_nslp.Ipfix.{
  Coding, int, uint, string, ntp, FieldType, Value, unset, int8, int16, int32, int64, octets, chars,
  value_length, value, bad_argument,
}
use m_nslp.Ipfix.Field.{
  low_first, little_bytes, little_value, turn, write, read, encode_int, decode, decode_int,
  bytes_field, number_field,
}

length-turn : (bs : List ℕ) → length (turn bs) ≡ length bs
length-turn [] = refl
length-turn (b ∷ bs) = omega (arith, length-append (turn bs) (b ∷ []), length-turn bs)

turn-append : (bs : List ℕ) (b : ℕ) → turn (bs ++ b ∷ []) ≡ b ∷ turn bs
turn-append [] b = refl
turn-append (c ∷ bs) b = ap (λ t. t ++ c ∷ []) (turn-append bs b)

turn-turn : (bs : List ℕ) → turn (turn bs) ≡ bs
turn-turn [] = refl
turn-turn (b ∷ bs) = turn-append (turn bs) b ∙ ap (λ t. b ∷ t) (turn-turn bs)

-- `n` has at most `k` bytes.
abbrev Bytes : ℕ → ℕ → Type 0
Bytes zero n = n ≡ 0
Bytes (suc k) n = Bytes k (n / 256)

length-little_bytes : (k n : ℕ) → length (little_bytes k n) ≡ k
length-little_bytes zero n = refl
length-little_bytes (suc k) n = ap suc (length-little_bytes k (n / 256))

little_value-little_bytes : (k n : ℕ) → Bytes k n → little_value (little_bytes k n) ≡ n
little_value-little_bytes zero n h = sym h
little_value-little_bytes (suc k) n h = omega (arith, little_value-little_bytes k (n / 256) h)

length-write : (host relay : Bool) (k n : ℕ) → length (write host relay k n) ≡ k
unfolding write
length-write host relay k n = cases (low_first host relay)
  where
    cases : (b : Bool) → length (if b then little_bytes k n else turn (little_bytes k n)) ≡ k
    cases true = length-little_bytes k n
    cases false = length-turn (little_bytes k n) ∙ length-little_bytes k n

read-write : (host relay : Bool) (k n : ℕ) → Bytes k n → read host relay (write host relay k n) ≡ n
unfolding write read
read-write host relay k n h = cases (low_first host relay)
  where
    cases :
        (b : Bool)
        → (if b
            then little_value (if b then little_bytes k n else turn (little_bytes k n))
            else little_value (turn (if b then little_bytes k n else turn (little_bytes k n))))
          ≡ n
    cases true = little_value-little_bytes k n h
    cases false = ap little_value (turn-turn (little_bytes k n)) ∙ little_value-little_bytes k n h

-- The number is in the range of its type.
abbrev pub InRange : Value → Type 0
InRange (int8 n) = n < 256
InRange (int16 n) = n < 65536
InRange (int32 n) = n < 0x1_0000_0000
InRange (int64 n) = n < 0x1_0000_0000_0000_0000
InRange _ = ⊥

-- The codings of numbers.
abbrev pub IsNumber : Coding → Type 0
IsNumber c = (c ≡ int) ⊎ (c ≡ uint) ⊎ (c ≡ ntp)

decode_int-encode_int :
    (t : FieldType) (host relay : Bool) (v : Value)
    → InRange v
    → t.length ≡ value_length v
    → decode_int t host relay (encode_int host relay v) ≡ value v
unfolding decode_int encode_int
decode_int-encode_int t host relay (int8 n) h l = rw l (ap (λ k. value (int8 k)) (byte n h))
  where
    byte : (n : ℕ) → n < 256 → n % 256 + 256 * 0 ≡ n
    byte n h = omega arith
decode_int-encode_int t host relay (int16 n) h l =
    rw (length-write host relay 2 n, l, read-write host relay 2 n (omega arith)) refl
decode_int-encode_int t host relay (int32 n) h l =
    rw (length-write host relay 4 n, l, read-write host relay 4 n (omega arith)) refl
decode_int-encode_int t host relay (int64 n) h l =
    rw (length-write host relay 8 n, l, read-write host relay 8 n (omega arith)) refl
decode_int-encode_int t host relay unset h l = absurd h
decode_int-encode_int t host relay (octets bs) h l = absurd h
decode_int-encode_int t host relay (chars cs) h l = absurd h

-- A number in the range of its type is decoded from the bytes that were encoded, in either byte
-- order and on a host of either kind, if the field has a coding of numbers and the length of the
-- value, and both sides agree on the order.
pub decode-encode_int :
    (t : FieldType) (host relay : Bool) (v : Value)
    → IsNumber t.coding
    → InRange v
    → t.length ≡ value_length v
    → decode t host relay (encode_int host relay v) ≡ value v
unfolding decode
decode-encode_int t host relay v (inl e) h l = rw e (decode_int-encode_int t host relay v h l)
decode-encode_int t host relay v (inr (inl e)) h l = rw e (decode_int-encode_int t host relay v h l)
decode-encode_int t host relay v (inr (inr e)) h l = rw e (decode_int-encode_int t host relay v h l)

-- A field of strings cannot be decoded: whatever the bytes are, the result is an exception.
decode_string_fails :
    (t : FieldType) (host relay : Bool) (src : List ℕ)
    → t.coding ≡ string
    → decode t host relay src ≡ bad_argument
unfolding decode bytes_field
decode_string_fails t host relay src e = rw e refl

swapped : (n : ℕ) → n < 65536 → n / 256 % 256 + 256 * (n % 256 + 256 * 0) ≡ n % 256 * 256 + n / 256
swapped n h = omega arith

-- With `relay_f` set, which is what the message code passes for network encoding, a number of two bytes
-- that a host with the high byte first has encoded is decoded with its bytes exchanged on a host
-- with the low byte first.
relayed_bytes_exchanged :
    (t : FieldType) (n : ℕ)
    → IsNumber t.coding
    → t.length ≡ 2
    → n < 65536
    → decode t true true (encode_int false true (int16 n)) ≡ value (int16 (n % 256 * 256 + n / 256))
unfolding decode decode_int encode_int write read
relayed_bytes_exchanged t n c l h = cases c
  where
    number :
        number_field t 2 int16 (n / 256 % 256 + 256 * (n % 256 + 256 * 0))
        ≡ value (int16 (n % 256 * 256 + n / 256))
    number = rw (l, swapped n h) refl

    cases :
        IsNumber t.coding
        → decode t true true (encode_int false true (int16 n))
          ≡ value (int16 (n % 256 * 256 + n / 256))
    cases (inl e) = rw e number
    cases (inr (inl e)) = rw e number
    cases (inr (inr e)) = rw e number
