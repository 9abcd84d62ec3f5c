-- ===== src/Wire/Message/Rounds.antt =====
-- The rounds of the parser over objects that were written: src/msg/mnslp_msg.cpp,
-- src/msg/mnslp_ie.cpp.
use m_nslp.Prelude.{
  ℕ, zero, suc, ◌*◌, ◌≤◌, ◌<◌, ◌≡◌, refl, ◌∙◌, false, some, List, [], ◌∷◌, ◌++◌, map, arith, length,
  length-append, u32_mod, ◌==◌,
}
use m_nslp.Platform.{Platform}
use m_nslp.Msg.Object.{Object}
use m_nslp.Msg.Message.{
  Message, Kind, configure, refresh, response, notify, options, msg_type, mspec_object, empty,
  set_object, set_mspec_objects, set_mspec_object,
}
use m_nslp.Wire.{NetMsg, IsNetMsg, Codec, Parse, parsed, refused, escaped, unfinished}
use m_nslp.Wire.Object.{object_bytes, deserialize_object}
use m_nslp.Wire.Object.RoundTrip.{Fits, reread_object, object_roundtrip}
use m_nslp.Wire.Message.{
  finish, is_duplicate, deserialize_objects, take_object, deserialize_kind, deserialize_message,
  kind_of, extract_msg_type, with_faults,
}
use m_nslp.Wire.Message.Writing.{objects_bytes, AllFit}

with_faults-none : {A : Type 0} (p : Parse A) → with_faults [] p ≡ p
with_faults-none (parsed a rest more) = refl
with_faults-none (refused more) = refl
with_faults-none escaped = refl
with_faults-none unfinished = refl

pub kind_of-msg_type : (k : Kind) → kind_of (extract_msg_type (msg_type k * 0x100_0000)) ≡ some k
unfolding kind_of
kind_of-msg_type configure = refl
kind_of-msg_type response = refl
kind_of-msg_type notify = refl
kind_of-msg_type options = refl
kind_of-msg_type refresh = refl

pub msg_type_bound : (k : Kind) → msg_type k * 0x100_0000 < u32_mod
msg_type_bound configure = omega arith
msg_type_bound response = omega arith
msg_type_bound notify = omega arith
msg_type_bound options = omega arith
msg_type_bound refresh = omega arith

pub positive : (n : ℕ) → suc n == 0 ≡ false
positive n = ground arith

module _ {P : Platform} where
  -- The loop of the parser, without its errors.
  abbrev pub set_objects : List (Object P) → Message P → Message P
  set_objects [] m = m
  set_objects (o ∷ os) m = set_objects os (set_object o m)

  -- No object is there already when it is set.
  abbrev pub Fresh : List (Object P) → Message P → Type 0
  Fresh [] m = Unit
  Fresh (o ∷ os) m = (is_duplicate o m ≡ false) × Fresh os (set_object o m)

  pub set_objects-mspecs :
      (xs : List P.Mspec) (m : Message P)
      → set_objects (map (mspec_object {P = P}) xs) m ≡ set_mspec_objects xs m
  unfolding set_mspec_objects set_mspec_object
  set_objects-mspecs [] m = refl
  set_objects-mspecs (x ∷ xs) m = set_objects-mspecs xs (set_mspec_object x m)

  pub Fresh-mspecs : (xs : List P.Mspec) (m : Message P) → Fresh (map (mspec_object {P = P}) xs) m
  unfolding is_duplicate
  Fresh-mspecs [] m = tt
  Fresh-mspecs (x ∷ xs) m = (refl, Fresh-mspecs xs (set_object (mspec_object x) m))

module _ (P : Platform) (N : NetMsg) (C : Codec P.Mspec) (L : IsNetMsg N) where
  -- A round of the loop.
  pub round :
      (fuel : ℕ) (m : Message P) (src : List ℕ)
      → 0 < length src
      → deserialize_objects P N C (suc fuel) false m src
        ≡ take_object P N C
            (λ next rest. deserialize_objects P N C fuel false next rest)
            false
            m
            (deserialize_object P N C false src)
  unfolding deserialize_objects
  round fuel m [] h = absurd (omega arith)
  round fuel m (b ∷ src) h = refl

  pub round_object :
      (fuel : ℕ) (m : Message P) (o : Object P) (rest : List ℕ)
      → Fits C o.body
      → is_duplicate (reread_object C o) m ≡ false
      → deserialize_objects P N C (suc fuel) false m (object_bytes P N C o ++ rest)
        ≡ deserialize_objects P N C fuel false (set_object (reread_object C o) m) rest
  round_object fuel m o rest h d =
      round fuel m (object_bytes P N C o ++ rest) (
        omega (
          arith,
          length-append (object_bytes P N C o) rest,
          (object_roundtrip P N C L o false [] h).1,
        ))
      ∙ rw ((object_roundtrip P N C L o false rest h).2, d) (with_faults-none _)

  pub rounds :
      (fuel : ℕ) (m : Message P) (os : List (Object P))
      → AllFit P N C os
      → Fresh (map (reread_object C) os) m
      → length os ≤ fuel
      → deserialize_objects P N C fuel false m (objects_bytes P N C os)
        ≡ finish false (set_objects (map (reread_object C) os) m)
  unfolding deserialize_objects
  rounds fuel m [] h f l = empty_rest fuel
    where
      empty_rest : (fuel : ℕ) → deserialize_objects P N C fuel false m [] ≡ finish false m
      empty_rest fuel = refl
  rounds zero m (o ∷ os) h f l = absurd (omega arith)
  rounds (suc fuel) m (o ∷ os) h f l =
      round_object fuel m o (objects_bytes P N C os) h.0 f.0
      ∙ rounds fuel (set_object (reread_object C o) m) os h.1 f.1 (omega arith)

  many_bytes :
      (os : List (Object P)) → AllFit P N C os → length os ≤ length (objects_bytes P N C os)
  many_bytes [] h = omega arith
  many_bytes (o ∷ os) h = omega (
    arith,
    length-append (object_bytes P N C o) (objects_bytes P N C os),
    (object_roundtrip P N C L o false [] h.0).1,
    many_bytes os h.1,
  )

  read_kind :
      (k : Kind) (n : ℕ) (os : List (Object P))
      → n < u32_mod
      → AllFit P N C os
      → Fresh (map (reread_object C) os) (empty k)
      → deserialize_kind P N C k false (N.word32 n ++ objects_bytes P N C os)
        ≡ finish false (set_objects (map (reread_object C) os) (empty k))
  unfolding deserialize_kind
  read_kind k n os l h f =
      rw (L.read_word32 n (objects_bytes P N C os) l) (rounds _ (empty k) os h f (many_bytes os h))

  pub read_message :
      (k : Kind) (os : List (Object P))
      → AllFit P N C os
      → Fresh (map (reread_object C) os) (empty k)
      → deserialize_message P N C false
          (N.word32 (msg_type k * 0x100_0000) ++ objects_bytes P N C os)
        ≡ finish false (set_objects (map (reread_object C) os) (empty k))
  unfolding deserialize_message
  read_message k os h f =
      rw
        (
          L.read_word32 (msg_type k * 0x100_0000) (objects_bytes P N C os) (msg_type_bound k),
          kind_of-msg_type k,
        )
        (read_kind k _ os (msg_type_bound k) h f)
