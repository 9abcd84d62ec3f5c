-- ===== src/Wire/Object/Words.antt =====
-- The header of an object and the bytes around it: src/msg/mnslp_object.cpp.
use m_nslp.Prelude.{
  ℕ, zero, suc, ◌≤◌, ltb, ◌+◌, ◌*◌, ◌/◌, ◌%◌, ◌<◌, ◌≡◌, refl, ap, true, false, some, List, [], ◌∷◌,
  ◌++◌, arith, length, u32_mod,
}
use m_nslp.Msg.Object.{Treatment, tr_mandatory, tr_optional, tr_forward, tr_reserved}
use m_nslp.Wire.{NetMsg, IsNetMsg, zeros, padding}
use m_nslp.Wire.Object.{
  treatment_bits, treatment_of, header_word, deserialize_header, all_zero, take, drop,
}

treatment_of-treatment_bits : (t : Treatment) → treatment_of (treatment_bits t) ≡ t
unfolding treatment_of
treatment_of-treatment_bits tr_mandatory = refl
treatment_of-treatment_bits tr_optional = refl
treatment_of-treatment_bits tr_forward = refl
treatment_of-treatment_bits tr_reserved = refl

pub treatment_bound : (t : Treatment) → treatment_bits t < 4
treatment_bound tr_mandatory = omega arith
treatment_bound tr_optional = omega arith
treatment_bound tr_forward = omega arith
treatment_bound tr_reserved = omega arith

pub word_bound :
    (t type body : ℕ)
    → t < 4
    → type < 4096
    → body < 65536
    → t * 0x4000_0000 + type * 0x1_0000 + body / 4 < u32_mod
word_bound t type body h k l = omega arith

word_treatment :
    (t type body : ℕ)
    → t < 4
    → type < 4096
    → body < 65536
    → (t * 0x4000_0000 + type * 0x1_0000 + body / 4) / 0x4000_0000 ≡ t
word_treatment t type body h k l = omega arith

pub word_type :
    (t type body : ℕ)
    → t < 4
    → type < 4096
    → body < 65536
    → (t * 0x4000_0000 + type * 0x1_0000 + body / 4) / 0x1_0000 % 0x1000 ≡ type
word_type t type body h k l = omega arith

word_length :
    (t type body : ℕ)
    → body < 16384
    → body % 4 ≡ 0
    → (t * 0x4000_0000 + type * 0x1_0000 + body / 4) % 0x1000 * 4 ≡ body
word_length t type body h k = omega arith

pub padded_multiple : (n : ℕ) → (n + padding n) % 4 ≡ 0
padded_multiple n = omega arith

pub padded_bound : (n : ℕ) → n < 16381 → n + padding n < 16384
padded_bound n h = omega arith

pub length-zeros : (n : ℕ) → length (zeros n) ≡ n
length-zeros zero = refl
length-zeros (suc n) = ap suc (length-zeros n)

pub all_zero-zeros : (n : ℕ) → all_zero (zeros n) ≡ true
all_zero-zeros zero = refl
all_zero-zeros (suc n) = all_zero-zeros n

pub take_append : (xs ys : List ℕ) → take (length xs) (xs ++ ys) ≡ xs
take_append [] ys = refl
take_append (x ∷ xs) ys = ap (λ t. x ∷ t) (take_append xs ys)

pub drop_append : (xs ys : List ℕ) → drop (length xs) (xs ++ ys) ≡ ys
drop_append [] ys = refl
drop_append (x ∷ xs) ys = drop_append xs ys

module _ (N : NetMsg) (L : IsNetMsg N) where
  -- The header is read back, before a body that is as long as it says.
  pub header-read :
      (t : Treatment) (type body : ℕ) (src : List ℕ)
      → type < 4096
      → body < 16384
      → body % 4 ≡ 0
      → body ≤ length src
      → deserialize_header N (N.word32 (header_word t type (body % 0x1_0000)) ++ src)
        ≡ some (record { treatment = t; object_type = type; body_length = body }, src)
  unfolding deserialize_header
  header-read t type body src h k m l =
      rw
        (
          small body k,
          L.read_word32 (header_word t type body) src
              (word_bound _ type body (treatment_bound t) h (wide body k)),
          word_treatment _ type body (treatment_bound t) h (wide body k),
          treatment_of-treatment_bits t,
          word_type _ type body (treatment_bound t) h (wide body k),
          word_length (treatment_bits t) type body k m,
          fits (length src) body l,
        )
        refl
    where
      small : (n : ℕ) → n < 16384 → n % 0x1_0000 ≡ n
      small n h = omega arith

      wide : (n : ℕ) → n < 16384 → n < 65536
      wide n h = omega arith

      fits : (m n : ℕ) → n ≤ m → ltb m n ≡ false
      fits m n h = ground arith
