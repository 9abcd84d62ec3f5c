-- ===== src/Wire/Message/Reading.antt =====
-- Parsing any bytes: src/msg/mnslp_msg.cpp, src/msg/mnslp_ie.cpp and src/gistka_mapper.cpp.
use m_nslp.Prelude.{
  ℕ, zero, suc, ◌≤◌, ◌<◌, ◌≡◌, refl, Bool, true, false, Option, none, some, List, [], ◌∷◌, arith,
  length, ◌==◌, if◌then◌else◌,
}
use m_nslp.Platform.{Platform}
use m_nslp.Msg.Object.{Object}
use m_nslp.Msg.Store.Laws.{IsSorted, get-set}
use m_nslp.Msg.Message.{Message, Kind, empty, set_object, unique_key}
use m_nslp.Wire.{NetMsg, IsNetMsg, Codec, Fault, Parse, parsed, refused, escaped, unfinished}
use m_nslp.Wire.Object.{deserialize_object}
use m_nslp.Wire.Object.Reading.{
  Ends, HasLost, Ends-refl, Read, Leaves, Read-deserialize_object, after_read32,
}
use m_nslp.Wire.Message.{
  finish, is_duplicate, take_object, deserialize_objects, read_objects, deserialize_kind, as_kind,
  peeked_kind, deserialize_message, kind_of, extract_msg_type, with_faults, Received, delivered,
  aborted, outcome, receive,
}

-- What holds of a message that is parsed without skipping: it was read to its end, it has an
-- object, and no key occurs twice in its store, which is in order. The parser does not come to an end
-- only if the import of a part of the buffer does not.
abbrev pub IsComplete : {P : Platform} → Codec P.Mspec → List ℕ → Parse (Message P) → Type 0
IsComplete C src (parsed m rest faults) =
    (rest ≡ []) × (length m.objects == 0 ≡ false) × IsSorted m.objects
IsComplete C src (refused faults) = Unit
IsComplete C src escaped = Unit
IsComplete C src unfinished = HasLost C src

module _ {P : Platform} (C : Codec P.Mspec) (whole : List ℕ) where
  set_object-IsSorted :
      (o : Object P) (m : Message P) → IsSorted m.objects → IsSorted (set_object o m).objects
  unfolding set_object
  set_object-IsSorted o m h = (get-set _ (unique_key 0) o m.objects h).2

  IsComplete-with_faults :
      (faults : List Fault) (p : Parse (Message P))
      → IsComplete C whole p
      → IsComplete C whole (with_faults faults p)
  IsComplete-with_faults faults (parsed m rest more) h = h
  IsComplete-with_faults faults (refused more) h = tt
  IsComplete-with_faults faults escaped h = tt
  IsComplete-with_faults faults unfinished h = h

  IsComplete-finish : (m : Message P) → IsSorted m.objects → IsComplete C whole (finish false m)
  IsComplete-finish m sorted = cases (length m.objects == 0) _ refl
    where
      cases :
          (b : Bool) (faults : List Fault)
          → length m.objects == 0 ≡ b
          → IsComplete C whole (if b then refused faults else parsed m [] [])
      cases true faults e = tt
      cases false faults e = (refl, e, sorted)

module _ (P : Platform) (N : NetMsg) (C : Codec P.Mspec) (L : IsNetMsg N) (whole : List ℕ) where
  -- A round, given the property of what follows it.
  IsComplete-take_object :
      (n : ℕ) (go_on : Message P → List ℕ → Parse (Message P)) (m : Message P)
      (p : Parse (Object P))
      → ((next : Message P) (rest : List ℕ)
          → length rest < n
          → Ends whole rest
          → IsSorted next.objects
          → IsComplete C whole (go_on next rest))
      → IsSorted m.objects
      → Read C whole n false p
      → IsComplete C whole (take_object P N C go_on false m p)
  IsComplete-take_object n go_on m (refused faults) next sorted h = tt
  IsComplete-take_object n go_on m escaped next sorted h = tt
  IsComplete-take_object n go_on m unfinished next sorted h = h
  IsComplete-take_object n go_on m (parsed o rest faults) next sorted h = cases (is_duplicate o m) _
    where
      cases :
          (b : Bool) (more : List Fault)
          → IsComplete C whole
              (if b then refused more else with_faults faults (go_on (set_object o m) rest))
      cases true more = tt
      cases false more =
          IsComplete-with_faults C whole faults _
            (next (set_object o m) rest h.0 h.2 (set_object-IsSorted C whole o m sorted))

  IsComplete-objects :
      (fuel : ℕ) (m : Message P) (src : List ℕ)
      → length src ≤ fuel
      → Ends whole src
      → IsSorted m.objects
      → IsComplete C whole (deserialize_objects P N C fuel false m src)
  unfolding deserialize_objects
  IsComplete-objects fuel m [] l w sorted = done fuel
    where
      done : (fuel : ℕ) → IsComplete C whole (deserialize_objects P N C fuel false m [])
      done fuel = IsComplete-finish C whole m sorted
  IsComplete-objects zero m (b ∷ src) l w sorted = absurd (omega arith)
  IsComplete-objects (suc fuel) m (b ∷ src) l w sorted =
      IsComplete-take_object (length (b ∷ src)) _ m (deserialize_object P N C false (b ∷ src))
        (λ next rest h v s. IsComplete-objects fuel next rest (omega arith) v s) sorted
        (Read-deserialize_object P N C L whole false (b ∷ src) w)

  IsComplete-read_objects :
      (k : Kind) (src : List ℕ) (r : Option (ℕ × List ℕ))
      → Leaves whole (length src) r
      → IsComplete C whole (read_objects P N C k false src r)
  IsComplete-read_objects k src none w = tt
  IsComplete-read_objects k src (some (raw, rest)) w =
      IsComplete-objects (length rest) (empty k) rest (omega arith) w.1 tt

  IsComplete-as_kind :
      (k : Option Kind) (src : List ℕ)
      → Ends whole src
      → IsComplete C whole (as_kind P N C k false src)
  unfolding deserialize_kind
  IsComplete-as_kind none src w = tt
  IsComplete-as_kind (some k) src w =
      IsComplete-read_objects k src (N.read32 src)
        (after_read32 P N C L whole src (N.read32 src) refl w)

  IsComplete-peeked :
      (r : Option (ℕ × List ℕ)) (src : List ℕ)
      → Ends whole src
      → IsComplete C whole (peeked_kind P N C r false src)
  IsComplete-peeked none src w = tt
  IsComplete-peeked (some (raw, rest)) src w =
      IsComplete-as_kind (kind_of (extract_msg_type raw)) src w

  -- The result of parsing any payload.
  IsComplete-deserialize_message :
      (src : List ℕ) → Ends whole src → IsComplete C whole (deserialize_message P N C false src)
  unfolding deserialize_message
  IsComplete-deserialize_message src w = IsComplete-peeked (N.read32 src) src w

-- What a node makes of a payload: a message with objects, in a store in order, or no message, or
-- the end of the program. It makes nothing of it only if a part of the payload is lost in the import.
abbrev pub Handled : {P : Platform} → Codec P.Mspec → List ℕ → Option (Received P) → Type 0
Handled C src none = HasLost C src
Handled C src (some aborted) = Unit
Handled C src (some (delivered none)) = Unit
Handled C src (some (delivered (some m))) = (length m.objects == 0 ≡ false) × IsSorted m.objects

Handled-outcome :
    {P : Platform} (C : Codec P.Mspec) (src : List ℕ) (p : Parse (Message P))
    → IsComplete C src p
    → Handled C src (outcome p)
Handled-outcome C src (parsed m rest faults) h = (h.1, h.2)
Handled-outcome C src (refused []) h = tt
Handled-outcome C src (refused (fault ∷ faults)) h = tt
Handled-outcome C src escaped h = tt
Handled-outcome C src unfinished h = h

-- A payload of any bytes is handled, unless the import of a specification from some part of it
-- does not end or has undefined behaviour: the parser's own loop always ends. If the parser
-- delivers a message, the message has at least one object, and its store is in ascending order of
-- keys, so no key occurs twice.
pub receive-Handled :
    (P : Platform) (N : NetMsg) (C : Codec P.Mspec)
    → IsNetMsg N
    → (src : List ℕ) → Handled C src (receive P N C src)
unfolding receive
receive-Handled P N C L src =
    Handled-outcome C src (deserialize_message P N C false src)
      (IsComplete-deserialize_message P N C L src src (Ends-refl src))
