-- ===== src/Wire/Message/Writing.antt =====
-- The bytes that `serialize` of the message classes writes.
use m_nslp.Prelude.{
  ℕ, suc, ◌+◌, ◌<◌, ◌≡◌, refl, ap, subst, ◌∙◌, true, some, List, [], ◌∷◌, ◌++◌, map, arith, length,
  length-append, u32_mod, All,
}
use mathlib.Core.List.{append_assoc}
use m_nslp.Platform.{Platform}
use m_nslp.Msg.ObjectType
use m_nslp.Msg.Object.{Object}
use m_nslp.Msg.Store.{Key, get, weight}
use m_nslp.Msg.Store.Laws.{Below, get_append, Below-append}
use m_nslp.Msg.Message.{Message, mspec_object}
use m_nslp.Msg.Message.Laws.{numbered}
use m_nslp.Wire.{NetMsg, IsNetMsg, Codec, wrote}
use m_nslp.Wire.Object.{object_bytes, object_size}
use m_nslp.Wire.Object.RoundTrip.{Fits, object_roundtrip}
use m_nslp.Wire.Message.{mspec_keys, serialize_keys, sizes}

-- The store has the objects under the keys.
abbrev pub Found : {P : Platform} → List (Key × Object P) → List Key → List (Object P) → Type 0
Found store [] [] = Unit
Found store [] (o ∷ os) = ⊥
Found store (k ∷ ks) [] = ⊥
Found store (k ∷ ks) (o ∷ os) = (get k store ≡ some o) × Found store ks os

abbrev pub mspec_key : ℕ → Key
mspec_key n = record { object_type = ObjectType.ipfix_message; seq_nbr = n }

module _ {P : Platform} where
  -- Specifications that are numbered without a gap are all found.
  pub Found-mspecs :
      (pre : List (Key × Object P)) (n : ℕ) (xs : List P.Mspec)
      → 300 + n + length xs < u32_mod
      → Below (weight (mspec_key (suc n))) pre
      → Found
          (pre ++ numbered {P = P} n xs)
          (mspec_keys (suc n) (length xs))
          (map (mspec_object {P = P}) xs)
  Found-mspecs pre n [] small below = tt
  Found-mspecs pre n (x ∷ xs) small below = (
    get_append (mspec_key (suc n)) (mspec_object x) pre (numbered (suc n) xs) below,
    subst
        (λ store.
          Found store (mspec_keys (suc (suc n)) (length xs)) (map (mspec_object {P = P}) xs))
        (append_assoc pre ((mspec_key (suc n), mspec_object x) ∷ []) (numbered (suc n) xs))
        (Found-mspecs (pre ++ (mspec_key (suc n), mspec_object x) ∷ []) (suc n) xs (omega arith)
          (Below-append (mspec_key (suc n)) (mspec_object x) _ pre below (omega arith))),
  )

module _ (P : Platform) (N : NetMsg) (C : Codec P.Mspec) where
  abbrev pub objects_bytes : List (Object P) → List ℕ
  objects_bytes [] = []
  objects_bytes (o ∷ os) = object_bytes P N C o ++ objects_bytes os

  abbrev pub objects_size : List (Object P) → ℕ
  objects_size [] = 0
  objects_size (o ∷ os) = object_size P N C o + objects_size os

  abbrev pub AllFit : List (Object P) → Type 0
  AllFit os = All (λ o. Fits C o.body) os

  pub sizes-numbered :
      (n : ℕ) (xs : List P.Mspec)
      → sizes P N C (numbered {P = P} n xs) ≡ objects_size (map (mspec_object {P = P}) xs)
  unfolding sizes
  sizes-numbered n [] = refl
  sizes-numbered n (x ∷ xs) =
      ap (λ k. object_size P N C (mspec_object x) + k) (sizes-numbered (suc n) xs)

module _ (P : Platform) (N : NetMsg) (C : Codec P.Mspec) (L : IsNetMsg N) where
  pub serialize_keys-Found :
      (m : Message P) (ks : List Key) (os : List (Object P))
      → AllFit P N C os
      → Found m.objects ks os
      → serialize_keys P N C ks m ≡ wrote (objects_bytes P N C os)
  unfolding serialize_keys
  serialize_keys-Found m [] [] h f = refl
  serialize_keys-Found m [] (o ∷ os) h f = absurd f
  serialize_keys-Found m (k ∷ ks) [] h f = absurd f
  serialize_keys-Found m (k ∷ ks) (o ∷ os) h f =
      rw (f.0, (object_roundtrip P N C L o true [] h.0).0, serialize_keys-Found m ks os h.1 f.1)
        refl

  pub length-objects_bytes :
      (os : List (Object P))
      → AllFit P N C os
      → length (objects_bytes P N C os) ≡ objects_size P N C os
  length-objects_bytes [] h = refl
  length-objects_bytes (o ∷ os) h =
      length-append (object_bytes P N C o) (objects_bytes P N C os)
      ∙ rw ((object_roundtrip P N C L o true [] h.0).1, length-objects_bytes os h.1) refl
