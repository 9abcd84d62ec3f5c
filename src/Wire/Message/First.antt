-- ===== src/Wire/Message/First.antt =====
-- The first object of a payload: src/msg/mnslp_msg.cpp, src/msg/mnslp_object.cpp and
-- src/gistka_mapper.cpp.
use m_nslp.Prelude.{
  ℕ, suc, ◌+◌, ◌*◌, ◌%◌, ◌≤◌, ◌<◌, ◌≡◌, refl, false, some, List, ◌++◌, arith, length, length-append,
  ap, ◌∙◌, u32_mod,
}
use m_nslp.Platform.{Platform}
use m_nslp.Msg.Object.{Treatment, Object, Body}
use m_nslp.Msg.Message.{Kind, msg_type, empty}
use m_nslp.Wire.{NetMsg, IsNetMsg, Codec, Parse}
use m_nslp.Wire.Object.{
  Class, code_class, entities_class, hops_class, sequence_class, lifetime_class, mspec_class,
  class_type, class_of, header_word, deserialize_object, deserialize, deserialize_body, object_of,
}
use m_nslp.Wire.Object.Words.{header-read, word_bound, word_type, treatment_bound}
use m_nslp.Wire.Message.{
  take_object, deserialize_objects, deserialize_kind, deserialize_message, outcome, receive,
}
use m_nslp.Wire.Message.Rounds.{round, kind_of-msg_type, msg_type_bound}

abbrev pub message_header : NetMsg → Kind → List ℕ
message_header N k = N.word32 (msg_type k * 0x100_0000)

-- The bytes of an object header.
abbrev pub object_header : NetMsg → Treatment → Class → ℕ → List ℕ
object_header N t c n = N.word32 (header_word t (class_type c) (n % 0x1_0000))

class_of-class_type : (c : Class) → class_of (class_type c) ≡ some c
unfolding class_of
class_of-class_type code_class = refl
class_of-class_type entities_class = refl
class_of-class_type hops_class = refl
class_of-class_type sequence_class = refl
class_of-class_type lifetime_class = refl
class_of-class_type mspec_class = refl

class_type_bound : (c : Class) → class_type c < 4096
class_type_bound code_class = omega arith
class_type_bound entities_class = omega arith
class_type_bound hops_class = omega arith
class_type_bound sequence_class = omega arith
class_type_bound lifetime_class = omega arith
class_type_bound mspec_class = omega arith

module _ (P : Platform) (N : NetMsg) (C : Codec P.Mspec) (L : IsNetMsg N) where
  -- What follows the message header is read as objects.
  kind-first :
      (k : Kind) (n : ℕ) (src : List ℕ)
      → n < u32_mod
      → deserialize_kind P N C k false (N.word32 n ++ src)
        ≡ deserialize_objects P N C (length src) false (empty k) src
  unfolding deserialize_kind
  kind-first k n src h = rw (L.read_word32 n src h) refl

  pub message-first :
      (k : Kind) (src : List ℕ)
      → deserialize_message P N C false (message_header N k ++ src)
        ≡ deserialize_objects P N C (length src) false (empty k) src
  unfolding deserialize_message
  message-first k src =
      rw (L.read_word32 (msg_type k * 0x100_0000) src (msg_type_bound k), kind_of-msg_type k)
        (kind-first k _ src (msg_type_bound k))

  pub first_object :
      (k : Kind) (n : ℕ) (src : List ℕ) (p : Parse (Object P))
      → length src ≡ suc n
      → deserialize_object P N C false src ≡ p
      → receive P N C (message_header N k ++ src)
        ≡ outcome (
            take_object P N C
              (λ next rest. deserialize_objects P N C n false next rest)
              false
              (empty k)
              p)
  unfolding receive
  first_object k n src p l e = ap outcome (
      message-first k src
      ∙ ap (λ fuel. deserialize_objects P N C fuel false (empty k) src) l
      ∙ round P N C L n (empty k) src (omega arith)
      ∙ ap
          (take_object P N C (λ next rest. deserialize_objects P N C n false next rest) false
            (empty k))
          e)

  -- The object that a header of a class announces.
  object-first :
      (t : Treatment) (c : Class) (n : ℕ) (src : List ℕ)
      → n < 16384
      → deserialize_object P N C false
          (N.word32 (header_word t (class_type c) (n % 0x1_0000)) ++ src)
        ≡ deserialize P N C c false (N.word32 (header_word t (class_type c) (n % 0x1_0000)) ++ src)
  unfolding deserialize_object
  object-first t c n src h =
      rw
        (
          L.read_word32 (header_word t (class_type c) (n % 0x1_0000)) src (
              word_bound _ (class_type c) (n % 0x1_0000) (treatment_bound t) (class_type_bound c)
                (omega arith)),
          word_type _ (class_type c) (n % 0x1_0000) (treatment_bound t) (class_type_bound c)
              (omega arith),
          class_of-class_type c,
        )
        refl

  pub object-body :
      (t : Treatment) (c : Class) (n : ℕ) (src : List ℕ) (q : Parse (Body P))
      → n < 16384
      → n % 4 ≡ 0
      → n ≤ length src
      → deserialize_body P N C c false n src ≡ q
      → deserialize_object P N C false
          (N.word32 (header_word t (class_type c) (n % 0x1_0000)) ++ src)
        ≡ object_of t q
  unfolding deserialize
  object-body t c n src q h m l e =
      object-first t c n src h
      ∙ rw (header-read N L t (class_type c) n src (class_type_bound c) h m l, e) refl

  pub length-after : (n : ℕ) (src : List ℕ) → length (N.word32 n ++ src) ≡ suc (3 + length src)
  length-after n src = omega (arith, length-append (N.word32 n) src, L.length_word32 n)
