-- ===== src/Msg/Message/Laws.antt =====
-- What a message that the program builds holds.
use m_nslp.Prelude.{
  ℕ, suc, ◌+◌, ◌<◌, ◌≡◌, refl, ap, ◌∙◌, sym, true, some, List, [], ◌∷◌, ◌++◌, arith, u32, u32_mod,
  length, length-append,
}
use Prim.Native.Nat.add
use mathlib.Core.List.{append_assoc, append-nil}
use m_nslp.Platform.{Platform}
use m_nslp.Msg.ObjectType
use m_nslp.Msg.Object.{
  Object, selection_metering_entities, message_hop_count, msg_sequence_number, session_lifetime,
  mandatory,
}
use m_nslp.Msg.Store.{Key, get, set, get_max_sequence, max_sequence_from}
use m_nslp.Msg.Store.Laws.{Below, set_append}
use m_nslp.Msg.Message.{
  Message, configure, empty, unique_key, mspec_object, set_mspec_object, set_mspec_objects,
  mspecs_of, get_mspec_objects, set_session_lifetime, set_msg_sequence_number,
  set_selection_metering_entities, set_message_hop_count, get_session_lifetime,
  get_msg_sequence_number, get_selection_metering_entities, get_message_hop_count,
  has_msg_sequence_number, check_configure,
}

module _ {P : Platform} where
  -- Metering specifications under consecutive sequence numbers, from `n + 1` on.
  abbrev pub numbered : ℕ → List P.Mspec → List (Key × Object P)
  numbered n [] = []
  numbered n (x ∷ xs) =
      (record { object_type = ObjectType.ipfix_message; seq_nbr = suc n }, mspec_object x)
      ∷ numbered (suc n) xs

  -- The four objects of every CONFIGURE, in the order of their keys.
  abbrev pub header : ℕ → ℕ → ℕ → ℕ → List (Key × Object P)
  header lifetime msn sme hops =
      (
        unique_key ObjectType.selection_metering_entities,
        mandatory (selection_metering_entities sme),
      )
      ∷ (unique_key ObjectType.message_hop_count, mandatory (message_hop_count hops))
      ∷ (unique_key ObjectType.msg_sequence_number, mandatory (msg_sequence_number msn))
      ∷ (unique_key ObjectType.session_lifetime, mandatory (session_lifetime lifetime))
      ∷ []

suc_shift : (n m : ℕ) → suc n + m ≡ n + suc m
suc_shift n m = omega arith

next_sequence : (n : ℕ) → n + 1 < u32_mod → u32 (n + 1) ≡ suc n
next_sequence n h = omega arith

module _ (P : Platform) where
  mspecs-numbered : (n : ℕ) (xs : List P.Mspec) → mspecs_of (numbered {P = P} n xs) ≡ some xs
  unfolding mspecs_of
  mspecs-numbered n [] = refl
  mspecs-numbered n (x ∷ xs) = rw (mspecs-numbered (suc n) xs)

  max_sequence-numbered :
      (n : ℕ) (xs : List P.Mspec)
      → max_sequence_from n ObjectType.ipfix_message (numbered {P = P} n xs) ≡ n + length xs
  unfolding max_sequence_from
  max_sequence-numbered n [] = omega arith
  max_sequence-numbered n (x ∷ xs) = ground (arith, max_sequence-numbered (suc n) xs)

  Below-numbered :
      (n m : ℕ) (xs : List P.Mspec)
      → ObjectType.ipfix_message + n + length xs < m
      → m < u32_mod
      → Below m (numbered {P = P} n xs)
  Below-numbered n m [] h l = tt
  Below-numbered n m (x ∷ xs) h l = (omega arith, Below-numbered (suc n) m xs (omega arith) l)

  abbrev mspec_entry : ℕ → P.Mspec → Key × Object P
  mspec_entry n x = (record { object_type = ObjectType.ipfix_message; seq_nbr = n }, mspec_object x)

  numbered-append :
      (n : ℕ) (xs : List P.Mspec) (x : P.Mspec)
      → numbered {P = P} n (xs ++ x ∷ [])
        ≡ numbered {P = P} n xs ++ mspec_entry (suc (n + length xs)) x ∷ []
  numbered-append n [] x = ground arith
  numbered-append n (y ∷ xs) x =
      ground (arith, numbered-append (suc n) xs x, suc_shift n (length xs))

  -- The store of a CONFIGURE with `xs` added to it.
  abbrev pub configure_store : ℕ → ℕ → ℕ → ℕ → List P.Mspec → List (Key × Object P)
  configure_store lifetime msn sme hops xs =
      header {P = P} lifetime msn sme hops ++ numbered {P = P} 0 xs

  pub max_sequence-store :
      (l m s h : ℕ) (xs : List P.Mspec)
      → get_max_sequence ObjectType.ipfix_message (configure_store l m s h xs) ≡ length xs
  unfolding get_max_sequence max_sequence_from
  max_sequence-store l m s h xs = max_sequence-numbered 0 xs ∙ add.zero (length xs)

  set-store :
      (l m s h : ℕ) (xs : List P.Mspec) (x : P.Mspec)
      → 300 + length xs < u32_mod
      → set (mspec_entry (suc (length xs)) x).0 (mspec_object x) (configure_store l m s h xs)
        ≡ configure_store l m s h (xs ++ x ∷ [])
  set-store l m s h xs x small =
      set_append _ _ (configure_store l m s h xs) (
        omega arith,
        (
          omega arith,
          (omega arith, (omega arith, Below-numbered 0 _ xs (omega arith) (omega arith))),
        ),
      )
      ∙ ap (λ t. header {P = P} l m s h ++ t)
          (sym (
            numbered-append 0 xs x
            ∙ ap (λ n. numbered {P = P} 0 xs ++ mspec_entry (suc n) x ∷ []) (add.zero (length xs))))

  set_mspec_object-store :
      (l m s h : ℕ) (xs : List P.Mspec) (x : P.Mspec)
      → 300 + length xs < u32_mod
      → set_mspec_object {P = P} x
          (record { kind = configure; objects = configure_store l m s h xs })
        ≡ record { kind = configure; objects = configure_store l m s h (xs ++ x ∷ []) }
  unfolding set_mspec_object
  set_mspec_object-store l m s h xs x small =
      rw (max_sequence-store l m s h xs, next_sequence (length xs) (omega arith))
        (ap (λ t. record { kind = configure; objects = t }) (set-store l m s h xs x small))

  pub set_mspec_objects-store :
      (l m s h : ℕ) (xs ys : List P.Mspec)
      → 300 + length xs + length ys < u32_mod
      → set_mspec_objects {P = P} ys
          (record { kind = configure; objects = configure_store l m s h xs })
        ≡ record { kind = configure; objects = configure_store l m s h (xs ++ ys) }
  unfolding set_mspec_objects
  set_mspec_objects-store l m s h xs [] small = rw append-nil
  set_mspec_objects-store l m s h xs (y ∷ ys) small =
      rw (set_mspec_object-store l m s h xs y (omega arith)) (
        set_mspec_objects-store l m s h (xs ++ y ∷ []) ys (omega (arith, length-append xs (y ∷ [])))
        ∙ ap (λ t. record { kind = configure; objects = configure_store l m s h t })
            (append_assoc xs (y ∷ []) ys))

  -- The CONFIGURE that the initiator and a forwarder put together.
  abbrev pub build : ℕ → ℕ → ℕ → ℕ → List P.Mspec → Message P
  build l m s h xs = set_mspec_objects xs (
      set_message_hop_count h (
        set_selection_metering_entities s
          (set_msg_sequence_number m (set_session_lifetime l (empty configure)))))

  pub build-store :
      (l m s h : ℕ) (xs : List P.Mspec)
      → 300 + length xs < u32_mod
      → build l m s h xs ≡ record { kind = configure; objects = configure_store l m s h xs }
  unfolding set_message_hop_count set_selection_metering_entities set_msg_sequence_number
      set_session_lifetime set
  build-store l m s h xs small = set_mspec_objects-store l m s h [] xs (omega arith)

  -- A CONFIGURE that is put together from values and metering specifications gives back every
  -- value, and the specifications in the order in which they were added.
  pub build_reads :
      (l m s h : ℕ) (xs : List P.Mspec)
      → 300 + length xs < u32_mod
      → (get_session_lifetime (build l m s h xs) ≡ l)
        × (get_msg_sequence_number (build l m s h xs) ≡ m)
        × (get_selection_metering_entities (build l m s h xs) ≡ s)
        × (get_message_hop_count (build l m s h xs) ≡ h)
        × (get_mspec_objects (build l m s h xs) ≡ some xs)
        × (has_msg_sequence_number (build l m s h xs) ≡ true)
        × (check_configure (build l m s h xs) ≡ true)
  unfolding get_session_lifetime get_msg_sequence_number get_selection_metering_entities
      get_message_hop_count get_mspec_objects has_msg_sequence_number check_configure get
  build_reads l m s h xs small =
      rw (build-store l m s h xs small) (refl, refl, refl, refl, mspecs-numbered 0 xs, refl, refl)
