-- ===== src/Ipfix/Print/Digits.antt =====
-- Which digits of a number are printed.
use m_nslp.Prelude.{
  ℕ, zero, suc, ◌+◌, ◌-◌, ◌*◌, ◌/◌, ◌%◌, ◌≤◌, ◌<◌, ◌≡◌, ◌↔◌, refl, ◌∙◌, ap, inl, inr, some, [], ◌∷◌,
  ◌++◌, All, arith, ltb, length, length-append, Bool-cases,
}
use m_nslp.Rule.{Name}
use m_nslp.Wire.Object.{take}
use m_nslp.Netmate.Names.{decimal, digits}
use m_nslp.Ipfix.{FieldType, uint, Value, int8, int16, int32, int64, value_length}
use m_nslp.Ipfix.Print.{FloatText, print_value, snprint, snprint_uint, snprintf, get_value_int}

-- The number that digits spell after the number that the digits before them spell.
abbrev pub number_after : ℕ → Name → ℕ
number_after n [] = n
number_after n (c ∷ s) = number_after (n * 10 + (c - 48)) s

abbrev pub number_of : Name → ℕ
number_of s = number_after 0 s

-- 10 to the power of a number.
abbrev pub pow10 : ℕ → ℕ
pow10 zero = 1
pow10 (suc k) = 10 * pow10 k

abbrev IsDigit : ℕ → Type 0
IsDigit c = (48 ≤ c) × (c ≤ 57)

number_after-append :
    (n c : ℕ) (s : Name) → number_after n (s ++ c ∷ []) ≡ number_after n s * 10 + (c - 48)
number_after-append n c [] = refl
number_after-append n c (d ∷ s) = number_after-append (n * 10 + (d - 48)) c s

number_of-digits : (fuel n : ℕ) → n < fuel → number_of (digits fuel n) ≡ n
unfolding digits
number_of-digits zero n h = absurd (omega arith)
number_of-digits (suc fuel) n h = elim (Bool-cases (ltb n 10)) [
  | inl small ↦ rw small (ground (arith, small))
  | inr large ↦ rw large (
      number_after-append 0 (48 + n % 10) (digits fuel (n / 10))
      ∙ ground (arith, large, number_of-digits fuel (n / 10)))
]

All-append : (s : Name) (c : ℕ) → All IsDigit s → IsDigit c → All IsDigit (s ++ c ∷ [])
All-append [] c h d = (d, tt)
All-append (e ∷ s) c h d = (h.0, All-append s c h.1 d)

digits-IsDigit : (fuel n : ℕ) → All IsDigit (digits fuel n)
unfolding digits
digits-IsDigit zero n = tt
digits-IsDigit (suc fuel) n = elim (Bool-cases (ltb n 10)) [
  | inl small ↦ rw small ((omega arith, ground (arith, small)), tt)
  | inr large ↦ rw large (
      All-append (digits fuel (n / 10)) (48 + n % 10) (digits-IsDigit fuel (n / 10))
        (omega arith, omega arith))
]

length-digits : (fuel n k : ℕ) → n < pow10 (suc k) → length (digits fuel n) ≤ suc k
unfolding digits
length-digits zero n k h = omega arith
length-digits (suc fuel) n zero h = elim (Bool-cases (ltb n 10)) [
  | inl small ↦ rw small (omega arith)
  | inr large ↦ absurd (ground (arith, large))
]
length-digits (suc fuel) n (suc k) h = elim (Bool-cases (ltb n 10)) [
  | inl small ↦ rw small (omega arith)
  | inr large ↦ rw large (
      omega (
        arith,
        length-append (digits fuel (n / 10)) ((48 + n % 10) ∷ []),
        length-digits fuel (n / 10) k,
      ))
]

take-all : (k : ℕ) (s : Name) → length s ≤ k → take k s ≡ s
take-all zero [] h = refl
take-all zero (c ∷ s) h = absurd (omega arith)
take-all (suc k) [] h = refl
take-all (suc k) (c ∷ s) h = ap (λ r. c ∷ r) (take-all k s (omega arith))

number_after-lt :
    (k n : ℕ) (s : Name) → All IsDigit s → number_after n (take k s) < (n + 1) * pow10 k
number_after-lt zero n s h = omega arith
number_after-lt (suc k) n [] h = grind (arith, pow10_pos (suc k))
  where
    pow10_pos : (k : ℕ) → 0 < pow10 k
    pow10_pos zero = omega arith
    pow10_pos (suc k) = omega (arith, pow10_pos k)
number_after-lt (suc k) n (c ∷ s) h =
    grind (arith, number_after-lt k (n * 10 + (c - 48)) s h.1, h.0)

-- A number of 1, 2, 4 or 8 bytes.
abbrev pub IsNumber : Value → Type 0
IsNumber (int8 n) = Unit
IsNumber (int16 n) = Unit
IsNumber (int32 n) = Unit
IsNumber (int64 n) = Unit
IsNumber _ = ⊥

length_pos : (v : Value) → IsNumber v → (k : ℕ) × (value_length v ≡ suc k) × (k < 8)
length_pos (int8 n) h = (0, refl, omega arith)
length_pos (int16 n) h = (1, refl, omega arith)
length_pos (int32 n) h = (3, refl, omega arith)
length_pos (int64 n) h = (7, refl, omega arith)
length_pos Value.unset h = elim h [ ]
length_pos (Value.octets bs) h = elim h [ ]
length_pos (Value.chars cs) h = elim h [ ]

snprint_uint-snprintf :
    (size : ℕ) (v : Value)
    → IsNumber v
    → snprint_uint size v ≡ snprintf size (decimal (get_value_int v))
unfolding snprint_uint
snprint_uint-snprintf size (int8 n) h = refl
snprint_uint-snprintf size (int16 n) h = refl
snprint_uint-snprintf size (int32 n) h = refl
snprint_uint-snprintf size (int64 n) h = refl
snprint_uint-snprintf size Value.unset h = elim h [ ]
snprint_uint-snprintf size (Value.octets bs) h = elim h [ ]
snprint_uint-snprintf size (Value.chars cs) h = elim h [ ]

cut_number : (n k : ℕ) → (number_of (take (suc k) (decimal n)) ≡ n) ↔ (n < pow10 (suc k))
unfolding decimal
cut_number n k = (
  λ e. omega (arith, number_after-lt (suc k) 0 (digits (suc n) n) (digits-IsDigit (suc n) n), e),
  λ h.
      ap number_of (take-all (suc k) (digits (suc n) n) (length-digits (suc n) n k h))
      ∙ number_of-digits (suc n) n (omega arith),
)

-- An unsigned field of k bytes is printed by the first k decimal digits of its number, whatever the
-- number is: the text stands for the number exactly if the number is below 10 to the power of k.
-- The value has to be a number of the field's length.
pub print_value_lem :
    (float_text : FloatText) (t : FieldType) (v : Value)
    → IsNumber v
    → t.coding ≡ uint
    → t.length ≡ value_length v
    → (print_value float_text t v ≡ some (take t.length (decimal (get_value_int v))))
      × ((number_of (take t.length (decimal (get_value_int v))) ≡ get_value_int v)
          ↔ (get_value_int v < pow10 t.length))
unfolding print_value snprint snprintf
print_value_lem float_text t v number coded fits =
    let (k, long, small) = length_pos v number in
    let e : t.length ≡ suc k = fits ∙ long in
    let size : (t.length + 1) % 18446744073709551616 ≡ suc (suc k) = omega (arith, e) in
    rw (coded, e)
      (
        snprint_uint-snprintf _ v number
            ∙ ap (λ n. snprintf n (decimal (get_value_int v))) (rw e at size),
        cut_number (get_value_int v) k,
      )
