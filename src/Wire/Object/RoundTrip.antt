-- ===== src/Wire/Object/RoundTrip.antt =====
-- Objects that are written and read back: src/msg/mnslp_object.cpp and its subclasses.
use m_nslp.Prelude.{
  ℕ, ◌≤◌, ltb, ◌+◌, ◌*◌, ◌/◌, ◌%◌, ◌<◌, ◌≡◌, refl, sym, ap, subst, ◌∙◌, Bool, true, some, List, [],
  ◌++◌, arith, length, length-append, u32_mod,
}
use mathlib.Core.List.{append_assoc}
use m_nslp.Platform.{Platform}
use m_nslp.Msg.Object.{
  Treatment, Object, Body, information_code, selection_metering_entities, message_hop_count,
  msg_sequence_number, session_lifetime, ipfix_message, object_type, body_type,
}
use m_nslp.Wire.{
  NetMsg, IsNetMsg, Codec, IsReadable, reread, read_as, zeros, padding, parsed, wrote,
}
use m_nslp.Wire.Object.{
  Class, code_class, entities_class, hops_class, sequence_class, lifetime_class, mspec_class,
  class_of, treatment_bits, header_word, deserialize_body, deserialize, deserialize_object,
  body_size, check_body, check_object, serialize_body, object_bytes, object_size, serialize,
  mspec_body, all_zero, drop, code_valid,
}
use m_nslp.Wire.Object.Words.{
  treatment_bound, word_bound, word_type, padded_multiple, padded_bound, length-zeros,
  all_zero-zeros, take_append, drop_append, header-read,
}

-- The values of a body are in the range of their C++ types, and its code or its specification is valid.
abbrev pub Fits : {P : Platform} → Codec P.Mspec → Body P → Type 0
Fits C (information_code severity code type) = (severity < 16) × (code < 256) × (type ≡ 0)
Fits C (ipfix_message x) = IsReadable C x
Fits C (selection_metering_entities value) = value < u32_mod
Fits C (message_hop_count value) = value < u32_mod
Fits C (msg_sequence_number value) = value < u32_mod
Fits C (session_lifetime value) = value < u32_mod

-- What is read back: for a specification, what the import makes of its bytes.
abbrev pub reread_body : {P : Platform} → Codec P.Mspec → Body P → Body P
reread_body C (ipfix_message x) = ipfix_message (reread C x)
reread_body C (information_code severity code type) = information_code severity code type
reread_body C (selection_metering_entities value) = selection_metering_entities value
reread_body C (message_hop_count value) = message_hop_count value
reread_body C (msg_sequence_number value) = msg_sequence_number value
reread_body C (session_lifetime value) = session_lifetime value

abbrev pub reread_object : {P : Platform} → Codec P.Mspec → Object P → Object P
reread_object C o = record { treatment = o.treatment; body = reread_body C o.body }

abbrev class_for : {P : Platform} → Body P → Class
class_for (information_code _ _ _) = code_class
class_for (selection_metering_entities _) = entities_class
class_for (message_hop_count _) = hops_class
class_for (msg_sequence_number _) = sequence_class
class_for (session_lifetime _) = lifetime_class
class_for (ipfix_message _) = mspec_class

severity_field :
    (s c : ℕ) → s < 16 → c < 256 → (s * 0x100_0000 + c * 0x1_0000 + 0) / 0x100_0000 % 16 ≡ s
severity_field s c h k = omega arith

code_field : (s c : ℕ) → s < 16 → c < 256 → (s * 0x100_0000 + c * 0x1_0000 + 0) / 0x1_0000 % 256 ≡ c
code_field s c h k = omega arith

type_field : (s c : ℕ) → s < 16 → c < 256 → (s * 0x100_0000 + c * 0x1_0000 + 0) % 0x1_0000 ≡ 0
type_field s c h k = omega arith

code_bound : (s c : ℕ) → s < 16 → c < 256 → s * 0x100_0000 + c * 0x1_0000 + 0 < u32_mod
code_bound s c h k = omega arith

code_valid_lem : (s : ℕ) → s < 16 → code_valid s 0 ≡ true
code_valid_lem s h = ground arith

module _ (P : Platform) (N : NetMsg) (C : Codec P.Mspec) (L : IsNetMsg N) where
  class_of-class_for :
      (b : Body P) (t : Treatment)
      → class_of (object_type (record { treatment = t; body = b })) ≡ some (class_for b)
  unfolding class_of
  class_of-class_for (information_code _ _ _) t = refl
  class_of-class_for (selection_metering_entities _) t = refl
  class_of-class_for (message_hop_count _) t = refl
  class_of-class_for (msg_sequence_number _) t = refl
  class_of-class_for (session_lifetime _) t = refl
  class_of-class_for (ipfix_message _) t = refl

  body_size-Fits :
      (b : Body P) → Fits C b → (body_size P N C b < 16384) × (body_size P N C b % 4 ≡ 0)
  unfolding body_size
  body_size-Fits (information_code _ _ _) h = (omega arith, refl)
  body_size-Fits (selection_metering_entities _) h = (omega arith, refl)
  body_size-Fits (message_hop_count _) h = (omega arith, refl)
  body_size-Fits (msg_sequence_number _) h = (omega arith, refl)
  body_size-Fits (session_lifetime _) h = (omega arith, refl)
  body_size-Fits (ipfix_message x) h =
      (padded_bound (length (C.content x)) h.fits, padded_multiple (length (C.content x)))

  code_bytes :
      (s c : ℕ)
      → s < 16
      → c < 256
      → serialize_body P N C (information_code s c 0) ≡ N.word32 (s * 0x100_0000 + c * 0x1_0000 + 0)
  unfolding serialize_body
  code_bytes s c h k =
      ap (λ t. N.word8 t ++ N.word8 c ++ N.word16 0) (small s h)
      ∙ L.word32_fields s c 0 (omega arith) k (omega arith)
    where
      small : (s : ℕ) → s < 16 → s % 16 ≡ s
      small s h = omega arith

  length-serialize_body :
      (b : Body P) → Fits C b → length (serialize_body P N C b) ≡ body_size P N C b
  unfolding serialize_body body_size
  length-serialize_body (information_code s c t) h =
      subst (λ t. length (serialize_body P N C (information_code s c t)) ≡ 4) (sym h.2)
        (ap length (code_bytes s c h.0 h.1) ∙ L.length_word32 _)
  length-serialize_body (selection_metering_entities _) h = L.length_word32 _
  length-serialize_body (message_hop_count _) h = L.length_word32 _
  length-serialize_body (msg_sequence_number _) h = L.length_word32 _
  length-serialize_body (session_lifetime _) h = L.length_word32 _
  length-serialize_body (ipfix_message x) h =
      length-append (C.content x) _ ∙ ap (λ n. length (C.content x) + n) (length-zeros _)

  check_body-Fits : (b : Body P) → Fits C b → check_body P N C b ≡ true
  unfolding check_body
  check_body-Fits (information_code s c t) h =
      subst (λ t. code_valid s t ≡ true) (sym h.2) (code_valid_lem s h.0)
  check_body-Fits (selection_metering_entities _) h = refl
  check_body-Fits (message_hop_count _) h = refl
  check_body-Fits (msg_sequence_number _) h = refl
  check_body-Fits (session_lifetime _) h = refl
  check_body-Fits (ipfix_message x) h = above (length (C.content x)) h.not_empty
    where
      above : (n : ℕ) → 0 < n → ltb 0 n ≡ true
      above n h = ground arith

  type_small : (b : Body P) → ltb (body_type b) 0x1000 ≡ true
  type_small (information_code _ _ _) = refl
  type_small (selection_metering_entities _) = refl
  type_small (message_hop_count _) = refl
  type_small (msg_sequence_number _) = refl
  type_small (session_lifetime _) = refl
  type_small (ipfix_message _) = refl

  type_bound : (b : Body P) → body_type b < 4096
  type_bound b = bound (type_small b)
    where
      bound : ltb (body_type b) 0x1000 ≡ true → body_type b < 4096
      bound h = ground arith

  serialize-Fits : (o : Object P) → Fits C o.body → serialize P N C o ≡ wrote (object_bytes P N C o)
  unfolding serialize check_object
  serialize-Fits o h = rw (type_small o.body, check_body-Fits o.body h) refl

  pub length-object_bytes :
      (o : Object P) → Fits C o.body → length (object_bytes P N C o) ≡ object_size P N C o
  length-object_bytes o h =
      length-append (N.word32 _) (serialize_body P N C o.body)
      ∙ rw
          (
            L.length_word32
                (header_word o.treatment (object_type o) (body_size P N C o.body % 0x1_0000)),
            length-serialize_body o.body h,
          )
          refl

  mspec-read :
      (x : P.Mspec) (body rest : List ℕ) (k n : ℕ)
      → C.import_body body ≡ read_as x k
      → all_zero (drop k body) ≡ true
      → n ≡ length body
      → mspec_body P N C n (body ++ rest) ≡ parsed (ipfix_message x) rest []
  mspec-read x body rest k n h z e =
      rw (e, take_append body rest, h, take_append body rest, z, drop_append body rest) refl

  body-read :
      (b : Body P) (skip : Bool) (rest : List ℕ)
      → Fits C b
      → deserialize_body P N C
          (class_for b)
          skip
          (body_size P N C b)
          (serialize_body P N C b ++ rest)
        ≡ parsed (reread_body C b) rest []
  unfolding deserialize_body serialize_body body_size
  body-read (information_code s c t) skip rest h =
      subst
        (λ t.
          deserialize_body P N C code_class skip 4
            (serialize_body P N C (information_code s c t) ++ rest)
          ≡ parsed (information_code s c t) rest [])
        (sym h.2)
        (rw
          (
            code_bytes s c h.0 h.1,
            L.read_word32 (s * 0x100_0000 + c * 0x1_0000 + 0) rest (code_bound s c h.0 h.1),
            severity_field s c h.0 h.1,
            code_field s c h.0 h.1,
            type_field s c h.0 h.1,
            code_valid_lem s h.0,
          )
          refl)
  body-read (selection_metering_entities v) skip rest h = rw (L.read_word32 v rest h) refl
  body-read (message_hop_count v) skip rest h = rw (L.read_word32 v rest h) refl
  body-read (msg_sequence_number v) skip rest h = rw (L.read_word32 v rest h) refl
  body-read (session_lifetime v) skip rest h = rw (L.read_word32 v rest h) refl
  body-read (ipfix_message x) skip rest h =
      mspec-read (reread C x) (C.content x ++ zeros (padding (length (C.content x)))) rest
        (length (C.content x)) _ h.import_content
        (ap all_zero (drop_append (C.content x) _)
          ∙ all_zero-zeros (padding (length (C.content x))))
        (sym (length-append (C.content x) _ ∙ ap (λ n. length (C.content x) + n) (length-zeros _)))

  instance-read :
      (t : Treatment) (b : Body P) (n : ℕ) (skip : Bool) (src : List ℕ)
      → n < 65536
      → deserialize_object P N C skip (N.word32 (header_word t (body_type b) n) ++ src)
        ≡ deserialize P N C (class_for b) skip (N.word32 (header_word t (body_type b) n) ++ src)
  unfolding deserialize_object
  instance-read t b n skip src h =
      rw
        (
          L.read_word32 (header_word t (body_type b) n) src
              (word_bound (treatment_bits t) (body_type b) n (treatment_bound t) (type_bound b) h),
          word_type (treatment_bits t) (body_type b) n (treatment_bound t) (type_bound b) h,
          class_of-class_for b t,
        )
        refl

  body_left :
      (b : Body P) (rest : List ℕ)
      → Fits C b
      → body_size P N C b ≤ length (serialize_body P N C b ++ rest)
  body_left b rest h =
      omega (arith, length-append (serialize_body P N C b) rest, length-serialize_body b h)

  object-read :
      (o : Object P) (skip : Bool) (rest : List ℕ)
      → Fits C o.body
      → deserialize_object P N C skip (object_bytes P N C o ++ rest)
        ≡ parsed (reread_object C o) rest []
  unfolding deserialize
  object-read o skip rest h =
      ap (deserialize_object P N C skip) (
        append_assoc
          (N.word32 (header_word o.treatment (object_type o) (body_size P N C o.body % 0x1_0000)))
          (serialize_body P N C o.body) rest)
      ∙ instance-read o.treatment o.body (body_size P N C o.body % 0x1_0000) skip
          (serialize_body P N C o.body ++ rest) (omega arith)
      ∙ rw
          (
            header-read N L o.treatment (object_type o) (body_size P N C o.body)
                (serialize_body P N C o.body ++ rest) (type_bound o.body)
                (body_size-Fits o.body h).0 (body_size-Fits o.body h).1 (body_left o.body rest h),
            body-read o.body skip rest h,
          )
          refl

  -- An object whose values are in range is written, in the number of bytes that get_serialized_size
  -- returns, and read back from them, whatever follows: with its treatment bits, its class and its
  -- values, or what the import makes of its specification, without errors, and with all that follows left.
  pub object_roundtrip :
      (o : Object P) (skip : Bool) (rest : List ℕ)
      → Fits C o.body
      → (serialize P N C o ≡ wrote (object_bytes P N C o))
        × (length (object_bytes P N C o) ≡ object_size P N C o)
        × (deserialize_object P N C skip (object_bytes P N C o ++ rest)
            ≡ parsed (reread_object C o) rest [])
  unfolding deserialize_object deserialize
  object_roundtrip o skip rest h =
      (serialize-Fits o h, length-object_bytes o h, object-read o skip rest h)
