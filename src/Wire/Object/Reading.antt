-- ===== src/Wire/Object/Reading.antt =====
-- What reading one object leaves: src/msg/mnslp_object.cpp and its subclasses.
use m_nslp.Prelude.{
  ℕ, zero, suc, ◌+◌, ◌*◌, ◌%◌, ◌≤◌, ◌<◌, ◌≡◌, refl, Bool, true, false, Option, none, some, List, [],
  ◌∷◌, ◌++◌, arith, length, length-append, ap, sym, subst, ◌∙◌, ltb, if◌then◌else◌,
}
use mathlib.Core.List.{append_assoc}
use m_nslp.Platform.{Platform}
use m_nslp.Msg.Object.{Treatment, Body}
use m_nslp.Wire.{
  NetMsg, IsNetMsg, Import, read_as, bad_import, lost, Codec, Fault, Parse, parsed, refused,
  escaped, unfinished,
}
use m_nslp.Wire.Object.{
  Class, code_class, entities_class, hops_class, sequence_class, lifetime_class, mspec_class,
  Header, header_fields, deserialize_header, class_of, extract_object_type, value_body, code_body,
  imported, deserialize_body, object_of, after_header, deserialize, as_instance, after_peek,
  deserialize_object, take, drop,
}

-- What is left of a buffer is the end of it.
abbrev pub Ends : List ℕ → List ℕ → Type 0
Ends src rest = (before : List ℕ) × (src ≡ before ++ rest)

-- A part of the buffer is lost in the import.
abbrev pub HasLost : {Mspec : Type 0} → Codec Mspec → List ℕ → Type 0
HasLost C src =
    (before : List ℕ) × (body : List ℕ) × (after : List ℕ) × (src ≡ before ++ (body ++ after))
    × (C.import_body body ≡ lost)

pub Ends-refl : (src : List ℕ) → Ends src src
Ends-refl src = ([], refl)

pub Ends-trans : (src mid rest : List ℕ) → Ends src mid → Ends mid rest → Ends src rest
Ends-trans src mid rest (a, e) (b, f) =
    (a ++ b, e ∙ ap (λ t. a ++ t) f ∙ sym (append_assoc a b rest))

-- Of a buffer `src`, fewer than `n` bytes are left after what was read, and they are its end; nothing
-- was skipped without being asked for. The reader does not come to an end only if the import of a part
-- of the buffer does not.
abbrev pub Read : {A Mspec : Type 0} → Codec Mspec → List ℕ → ℕ → Bool → Parse A → Type 0
Read C src n skip (parsed a rest faults) =
    (length rest < n) × (skip ≡ false → faults ≡ []) × Ends src rest
Read C src n skip (refused faults) = Unit
Read C src n skip escaped = Unit
Read C src n skip unfinished = HasLost C src

module _ {A Mspec : Type 0} (C : Codec Mspec) (whole : List ℕ) where
  -- A fault that `skip` lets pass.
  Read-skip :
      (n : ℕ) (skip valid : Bool) (a : A) (rest : List ℕ) (faults : List Fault)
      → length rest < n
      → Ends whole rest
      → Read C whole n skip (
          if valid then parsed a rest [] else if skip then parsed a rest faults else refused faults)
  Read-skip n skip true a rest faults h w = (h, (λ e. refl), w)
  Read-skip n true false a rest faults h w = (h, (λ e. absurd (ground arith)), w)
  Read-skip n false false a rest faults h w = tt

  Read-test :
      (n : ℕ) (skip valid : Bool) (a : A) (rest : List ℕ)
      → length rest < n
      → Ends whole rest
      → Read C whole n skip (if valid then parsed a rest [] else refused [])
  Read-test n skip true a rest h w = (h, (λ e. refl), w)
  Read-test n skip false a rest h w = tt

take-drop : (n : ℕ) (bs : List ℕ) → bs ≡ take n bs ++ drop n bs
take-drop zero bs = refl
take-drop (suc n) [] = refl
take-drop (suc n) (b ∷ bs) = ap (λ t. b ∷ t) (take-drop n bs)

length-drop : (n : ℕ) (bs : List ℕ) → length (drop n bs) ≤ length bs
length-drop zero bs = omega arith
length-drop (suc n) [] = omega arith
length-drop (suc n) (b ∷ bs) = omega (arith, length-drop n bs)

-- What a read of four bytes leaves of the end of a buffer.
abbrev pub Leaves : List ℕ → ℕ → Option (ℕ × List ℕ) → Type 0
Leaves whole n none = Unit
Leaves whole n (some (value, rest)) = (n ≡ 4 + length rest) × Ends whole rest

module _ (P : Platform) (N : NetMsg) (C : Codec P.Mspec) (L : IsNetMsg N) (whole : List ℕ) where
  Read-object_of :
      (n : ℕ) (skip : Bool) (t : Treatment) (p : Parse (Body P))
      → Read C whole n skip p
      → Read C whole n skip (object_of t p)
  Read-object_of n skip t (parsed b rest faults) h = h
  Read-object_of n skip t (refused faults) h = tt
  Read-object_of n skip t escaped h = tt
  Read-object_of n skip t unfinished h = h

  leaves : (src : List ℕ) → Ends whole src → Leaves whole (length src) (N.read32 src)
  leaves src w = cases (N.read32 src) (λ n rest e. L.read_left src n rest e)
    where
      cases :
          (r : Option (ℕ × List ℕ))
          → ((n : ℕ) (rest : List ℕ)
              → r ≡ some (n, rest)
              → (word : List ℕ) × (length word ≡ 4) × (src ≡ word ++ rest))
          → Leaves whole (length src) r
      cases none h = tt
      cases (some (n, rest)) h =
          let (word, four, e) = h n rest refl in
          (
            omega (arith, ap length e, length-append word rest),
            Ends-trans whole src rest w (word, e),
          )

  Read-value_body :
      (k n : ℕ) (skip : Bool) (make : ℕ → Body P) (r : Option (ℕ × List ℕ))
      → k ≤ n
      → Leaves whole k r
      → Read C whole n skip (value_body P N C make r)
  Read-value_body k n skip make none l h = tt
  Read-value_body k n skip make (some (value, rest)) l h = (omega (arith, h.0), (λ e. refl), h.1)

  Read-code_body :
      (k n : ℕ) (skip : Bool) (r : Option (ℕ × List ℕ))
      → k ≤ n
      → Leaves whole k r
      → Read C whole n skip (code_body P N C skip r)
  Read-code_body k n skip none l h = tt
  Read-code_body k n skip (some (value, rest)) l h =
      Read-skip C whole n skip _ _ rest _ (omega (arith, h.0)) h.1

  Read-imported :
      (body n : ℕ) (skip : Bool) (src : List ℕ) (r : Import P.Mspec)
      → C.import_body (take body src) ≡ r
      → length src < n
      → Ends whole src
      → Read C whole n skip (imported P N C body src r)
  Read-imported body n skip src bad_import e l w = tt
  Read-imported body n skip src lost e l w =
      (w.0, take body src, drop body src, w.1 ∙ ap (λ t. w.0 ++ t) (take-drop body src), e)
  Read-imported body n skip src (read_as x num_read) e l w =
      Read-test C whole n skip _ _ (drop body src) (omega (arith, length-drop body src))
        (Ends-trans whole src (drop body src) w (take body src, take-drop body src))

  Read-deserialize_body :
      (c : Class) (body n : ℕ) (skip : Bool) (src : List ℕ)
      → length src < n
      → Ends whole src
      → Read C whole n skip (deserialize_body P N C c skip body src)
  unfolding deserialize_body
  Read-deserialize_body code_class body n skip src l w =
      Read-code_body (length src) n skip (N.read32 src) (omega arith) (leaves src w)
  Read-deserialize_body entities_class body n skip src l w =
      Read-value_body (length src) n skip _ (N.read32 src) (omega arith) (leaves src w)
  Read-deserialize_body hops_class body n skip src l w =
      Read-value_body (length src) n skip _ (N.read32 src) (omega arith) (leaves src w)
  Read-deserialize_body sequence_class body n skip src l w =
      Read-value_body (length src) n skip _ (N.read32 src) (omega arith) (leaves src w)
  Read-deserialize_body lifetime_class body n skip src l w =
      Read-value_body (length src) n skip _ (N.read32 src) (omega arith) (leaves src w)
  Read-deserialize_body mspec_class body n skip src l w =
      Read-imported body n skip src (C.import_body (take body src)) refl l w

  Read-header_fields :
      (n : ℕ) (c : Class) (skip : Bool) (r : Option (ℕ × List ℕ))
      → Leaves whole n r
      → Read C whole n skip (after_header P N C c skip (header_fields r))
  Read-header_fields n c skip none h = tt
  Read-header_fields n c skip (some (raw, rest)) h =
      checked (ltb (length rest) (raw % 0x1000 * 4)) _
    where
      checked :
          (b : Bool) (f : Header)
          → Read C whole n skip (after_header P N C c skip (if b then none else some (f, rest)))
      checked true f = tt
      checked false f =
          Read-object_of n skip f.treatment _
            (Read-deserialize_body c f.body_length n skip rest (omega (arith, h.0)) h.1)

  Read-as_instance :
      (k : Option Class) (skip : Bool) (src : List ℕ)
      → Ends whole src
      → Read C whole (length src) skip (as_instance P N C k skip src)
  unfolding deserialize deserialize_header
  Read-as_instance none skip src w = tt
  Read-as_instance (some c) skip src w =
      Read-header_fields (length src) c skip (N.read32 src) (leaves src w)

  Read-after_peek :
      (r : Option (ℕ × List ℕ)) (skip : Bool) (src : List ℕ)
      → Ends whole src
      → Read C whole (length src) skip (after_peek P N C r skip src)
  Read-after_peek none skip src w = tt
  Read-after_peek (some (raw, rest)) skip src w =
      Read-as_instance (class_of (extract_object_type raw)) skip src w

  -- Reading an object at the end of a buffer leaves fewer bytes than before, whatever they are, if the
  -- import of every part of the buffer ends.
  pub Read-deserialize_object :
      (skip : Bool) (src : List ℕ)
      → Ends whole src
      → Read C whole (length src) skip (deserialize_object P N C skip src)
  unfolding deserialize_object
  Read-deserialize_object skip src w = Read-after_peek (N.read32 src) skip src w

  pub after_read32 :
      (src : List ℕ) (r : Option (ℕ × List ℕ))
      → N.read32 src ≡ r
      → Ends whole src
      → Leaves whole (length src) r
  after_read32 src r e w = subst (λ t. Leaves whole (length src) t) e (leaves src w)
