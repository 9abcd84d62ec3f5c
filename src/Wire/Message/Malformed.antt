-- ===== src/Wire/Message/Malformed.antt =====
-- Payloads that are not those of a message: src/msg/mnslp_msg.cpp, src/msg/mnslp_object.cpp and its
-- subclasses, and src/gistka_mapper.cpp.
use m_nslp.Prelude.{
  ℕ, zero, suc, ◌+◌, ◌%◌, ◌<◌, ◌≡◌, ◌≢◌, ◌⊎◌, inl, inr, refl, true, false, none, some, List, [],
  ◌∷◌, ◌++◌, arith, length, length-append, ap, ◌∙◌, u32_mod, is_some,
}
use m_nslp.Platform.{Platform}
use m_nslp.Msg.Object.{
  Treatment, Object, Body, information_code, selection_metering_entities, message_hop_count,
  msg_sequence_number, session_lifetime, ipfix_message, object_type, is_unique, body_unique,
}
use m_nslp.Msg.Store.{get, set}
use m_nslp.Msg.Message.{Message, Kind, empty, set_object, get_object, unique_key}
use m_nslp.Wire.{
  NetMsg, IsNetMsg, Codec, read_as, bad_import, Parse, parsed, refused, escaped, wrong_subtype,
  duplicate_object,
}
use m_nslp.Wire.Object.{
  Class, code_class, entities_class, hops_class, sequence_class, lifetime_class, mspec_class,
  class_of, extract_object_type, deserialize_object, deserialize_body, object_bytes, object_size,
  object_of, drop, all_zero,
}
use m_nslp.Wire.Object.RoundTrip.{Fits, reread_object, object_roundtrip, length-object_bytes}
use m_nslp.Wire.Object.Words.{take_append}
use m_nslp.Wire.Message.{
  is_duplicate, take_object, deserialize_objects, deserialize_message, kind_of, extract_msg_type,
  delivered, aborted, outcome, receive,
}
use m_nslp.Wire.Message.Rounds.{round, round_object}
use m_nslp.Wire.Message.First.{
  message_header, object_header, message-first, first_object, object-body, length-after,
}

-- The import of a body throws, or leaves bytes that are not zero.
abbrev pub CannotImport : {Mspec : Type 0} → Codec Mspec → List ℕ → Type 0
CannotImport {Mspec} C body =
    (C.import_body body ≡ bad_import)
    ⊎ ((x : Mspec) × (num_read : ℕ) × (C.import_body body ≡ read_as x num_read)
        × (all_zero (drop num_read body) ≡ false))

abbrev Silent : {P : Platform} → Parse (Body P) → Type 0
Silent q = (q ≡ escaped) ⊎ (q ≡ refused [])

module _ (P : Platform) (N : NetMsg) (C : Codec P.Mspec) (L : IsNetMsg N) where
  body_short :
      (c : Class) (src : List ℕ)
      → c ≢ mspec_class
      → length src < 4
      → deserialize_body P N C c false 0 src ≡ escaped
  unfolding deserialize_body
  body_short code_class src h l = rw (L.read_short src l) refl
  body_short entities_class src h l = rw (L.read_short src l) refl
  body_short hops_class src h l = rw (L.read_short src l) refl
  body_short sequence_class src h l = rw (L.read_short src l) refl
  body_short lifetime_class src h l = rw (L.read_short src l) refl
  body_short mspec_class src h l = absurd (h refl)

  -- A message whose first object is not a metering specification and says that its body has no
  -- bytes, where fewer than four follow, ends the program of the node that receives it: the length is
  -- not looked at, and nothing catches the error of the buffer.
  pub short_object_aborts :
      (k : Kind) (t : Treatment) (c : Class) (rest : List ℕ)
      → c ≢ mspec_class
      → length rest < 4
      → receive P N C (message_header N k ++ (object_header N t c 0 ++ rest)) ≡ some aborted
  short_object_aborts k t c rest h l =
      first_object P N C L k (3 + length rest) (object_header N t c 0 ++ rest) escaped
        (length-after P N C L _ rest)
        (object-body P N C L t c 0 rest escaped (omega arith) refl (omega arith)
          (body_short c rest h l))

  broken_body :
      (body : List ℕ)
      → CannotImport C body
      → Silent (deserialize_body P N C mspec_class false (length body) (body ++ []))
  unfolding deserialize_body
  broken_body body (inl e) = inl (rw (take_append body [], e) refl)
  broken_body body (inr (x, num_read, e, z)) =
      inr (rw (take_append body [], e, take_append body [], z) refl)

  -- A message whose first object is a metering specification that cannot be imported, or that leaves
  -- bytes that are not zero, ends the program of the node that receives it: either an exception
  -- is not caught, or the parser returns NULL without an error, which fails an assertion.
  pub broken_specification_aborts :
      (k : Kind) (t : Treatment) (body : List ℕ)
      → length body < 16384
      → length body % 4 ≡ 0
      → CannotImport C body
      → receive P N C
          (message_header N k ++ (object_header N t mspec_class (length body) ++ (body ++ [])))
        ≡ some aborted
  broken_specification_aborts k t body h m u = cases (broken_body body u)
    where
      result :
          (q : Parse (Body P))
          → deserialize_body P N C mspec_class false (length body) (body ++ []) ≡ q
          → receive P N C
              (message_header N k ++ (object_header N t mspec_class (length body) ++ (body ++ [])))
            ≡ outcome (
                take_object P N C
                  (λ next rest. deserialize_objects P N C (3 + length (body ++ [])) false next rest)
                  false
                  (empty k)
                  (object_of t q))
      result q e =
          first_object P N C L k (3 + length (body ++ []))
            (object_header N t mspec_class (length body) ++ (body ++ [])) (object_of t q)
            (length-after P N C L _ (body ++ []))
            (object-body P N C L t mspec_class (length body) (body ++ []) q h m
              (omega (arith, length-append body [])) e)

      cases :
          Silent (deserialize_body P N C mspec_class false (length body) (body ++ []))
          → receive P N C
              (message_header N k ++ (object_header N t mspec_class (length body) ++ (body ++ [])))
            ≡ some aborted
      cases (inl e) = result escaped e
      cases (inr e) = result (refused []) e

  not_registered :
      (raw : ℕ) (src : List ℕ)
      → raw < u32_mod
      → class_of (extract_object_type raw) ≡ none
      → deserialize_object P N C false (N.word32 raw ++ src) ≡ refused (wrong_subtype ∷ [])
  unfolding deserialize_object
  not_registered raw src h e = rw (L.read_word32 raw src h, e) refl

  unknown_kind :
      (raw : ℕ) (src : List ℕ)
      → raw < u32_mod
      → kind_of (extract_msg_type raw) ≡ none
      → receive P N C (N.word32 raw ++ src) ≡ some (delivered none)
  unfolding receive deserialize_message
  unknown_kind raw src h e = rw (L.read_word32 raw src h, e) refl

  without_objects : (k : Kind) → receive P N C (message_header N k ++ []) ≡ some (delivered none)
  unfolding receive deserialize_objects
  without_objects k = rw (message-first P N C L k []) refl

  too_few_bytes : (src : List ℕ) → length src < 4 → receive P N C src ≡ some (delivered none)
  unfolding receive deserialize_message
  too_few_bytes src h = rw (L.read_short src h) refl

  -- A payload is delivered as an event without a message, and the program goes on, if it is shorter
  -- than a header, if its message type is not registered, if no object follows the header, or if
  -- the type of the first object is not registered.
  pub malformed_refused :
      (k : Kind) (raw : ℕ) (src : List ℕ)
      → raw < u32_mod
      → (length src < 4 → receive P N C src ≡ some (delivered none))
        × (kind_of (extract_msg_type raw) ≡ none
            → receive P N C (N.word32 raw ++ src) ≡ some (delivered none))
        × (receive P N C (message_header N k ++ []) ≡ some (delivered none))
        × (class_of (extract_object_type raw) ≡ none
            → receive P N C (message_header N k ++ (N.word32 raw ++ src)) ≡ some (delivered none))
  malformed_refused k raw src h = (
    too_few_bytes src,
    unknown_kind raw src h,
    without_objects k,
    λ e.
        first_object P N C L k (3 + length src) (N.word32 raw ++ src) (refused (wrong_subtype ∷ []))
          (length-after P N C L raw src) (not_registered raw src h e),
  )

  duplicate_found :
      (o p : Object P) (k : Kind)
      → is_unique o ≡ true
      → is_unique p ≡ true
      → object_type o ≡ object_type p
      → is_duplicate p (set_object o (empty k)) ≡ true
  unfolding is_duplicate get_object set_object get set
  duplicate_found o p k u v e = rw (u, v, e) (same (object_type p))
    where
      same : (n : ℕ) → is_some (get (unique_key n) ((unique_key n, o) ∷ [])) ≡ true
      same n = ground arith

  not_there : (o : Object P) (k : Kind) → is_duplicate o (empty k) ≡ false
  unfolding is_duplicate get_object get
  not_there o k = ground arith

  bytes_before :
      (o : Object P) (src : List ℕ)
      → Fits C o.body
      → length (object_bytes P N C o ++ src) ≡ object_size P N C o + length src
  bytes_before o src h =
      omega (arith, length-append (object_bytes P N C o) src, length-object_bytes P N C L o h)

  -- What is read of a unique object is the object itself.
  reread_unique :
      (t : Treatment) (b : Body P)
      → body_unique b ≡ true
      → reread_object C (record { treatment = t; body = b }) ≡ record { treatment = t; body = b }
  reread_unique t (information_code _ _ _) u = refl
  reread_unique t (selection_metering_entities _) u = refl
  reread_unique t (message_hop_count _) u = refl
  reread_unique t (msg_sequence_number _) u = refl
  reread_unique t (session_lifetime _) u = refl
  reread_unique t (ipfix_message _) u = cc

  second_object :
      (fuel : ℕ) (m : Message P) (p : Object P) (rest : List ℕ)
      → Fits C p.body
      → is_unique p ≡ true
      → is_duplicate p m ≡ true
      → 0 < fuel
      → deserialize_objects P N C fuel false m (object_bytes P N C p ++ rest)
        ≡ refused (duplicate_object (object_type p) ∷ [])
  second_object zero m p rest h v d l = absurd (omega arith)
  second_object (suc fuel) m p rest h v d l =
      round P N C L fuel m (object_bytes P N C p ++ rest) (omega (arith, bytes_before p rest h))
      ∙ rw (object_roundtrip P N C L p false rest h).2 (
          ap
            (λ q.
              take_object P N C (λ next left. deserialize_objects P N C fuel false next left) false
                m (parsed q rest []))
            (reread_unique p.treatment p.body v)
          ∙ rw d refl)

  both_objects :
      (fuel : ℕ) (k : Kind) (o p : Object P) (rest : List ℕ)
      → Fits C o.body
      → Fits C p.body
      → is_unique o ≡ true
      → is_unique p ≡ true
      → is_duplicate p (set_object o (empty k)) ≡ true
      → 1 < fuel
      → deserialize_objects P N C fuel false
          (empty k)
          (object_bytes P N C o ++ (object_bytes P N C p ++ rest))
        ≡ refused (duplicate_object (object_type p) ∷ [])
  both_objects zero k o p rest ho hp u v d l = absurd (omega arith)
  both_objects (suc fuel) k o p rest ho hp u v d l =
      round_object P N C L fuel (empty k) o (object_bytes P N C p ++ rest) ho
        (not_there (reread_object C o) k)
      ∙ ap
          (λ q.
            deserialize_objects P N C fuel false (set_object q (empty k))
              (object_bytes P N C p ++ rest))
          (reread_unique o.treatment o.body u)
      ∙ second_object fuel (set_object o (empty k)) p rest hp v d (omega arith)

  -- A message whose first two objects have the same type is delivered as an event without a
  -- message, if objects of that type are unique.
  pub duplicate_refused :
      (k : Kind) (o p : Object P) (rest : List ℕ)
      → Fits C o.body
      → Fits C p.body
      → is_unique o ≡ true
      → is_unique p ≡ true
      → object_type o ≡ object_type p
      → receive P N C
          (message_header N k ++ (object_bytes P N C o ++ (object_bytes P N C p ++ rest)))
        ≡ some (delivered none)
  unfolding receive
  duplicate_refused k o p rest ho hp u v e = ap outcome (
      message-first P N C L k (object_bytes P N C o ++ (object_bytes P N C p ++ rest))
      ∙ both_objects _ k o p rest ho hp u v (duplicate_found o p k u v e)
          (omega (arith, bytes_before o (object_bytes P N C p ++ rest) ho)))
