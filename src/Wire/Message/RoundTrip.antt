-- ===== src/Wire/Message/RoundTrip.antt =====
-- Messages that are serialized, sent and parsed: src/msg/mnslp_configure.cpp, mnslp_refresh.cpp,
-- mnslp_response.cpp, mnslp_msg.cpp, mnslp_ie.cpp and src/gistka_mapper.cpp.
use m_nslp.Prelude.{
  ℕ, suc, ◌+◌, ◌*◌, ◌<◌, ◌≡◌, refl, sym, ap, subst, ◌∙◌, true, false, some, List, [], ◌∷◌, ◌++◌,
  map, arith, length, length-append, u32_mod, All, ◌==◌,
}
use m_nslp.Platform.{Platform}
use m_nslp.Msg.Object.{
  Object, selection_metering_entities, message_hop_count, msg_sequence_number, session_lifetime,
  information_code, mandatory,
}
use m_nslp.Msg.Store.{get, set, get_max_sequence}
use m_nslp.Msg.Message.{
  Message, configure, refresh, response, msg_type, mspec_object, empty, set_object,
  set_session_lifetime, set_msg_sequence_number, set_information_code, get_object, check_configure,
  check_refresh, check_response,
}
use m_nslp.Msg.Message.Laws.{
  header, configure_store, build, build-store, set_mspec_objects-store, max_sequence-store,
}
use m_nslp.Wire.{NetMsg, IsNetMsg, Codec, IsReadable, reread, wrote}
use m_nslp.Wire.Object.{body_size}
use m_nslp.Wire.Object.RoundTrip.{reread_object}
use m_nslp.Wire.Message.{
  mspec_keys, serialize_message, check_message, written_keys, sizes, message_size, is_duplicate,
  delivered, receive,
}
use m_nslp.Wire.Message.Writing.{
  Found, Found-mspecs, objects_bytes, objects_size, AllFit, serialize_keys-Found,
  length-objects_bytes, sizes-numbered,
}
use m_nslp.Wire.Message.Rounds.{
  positive, set_objects, Fresh, set_objects-mspecs, Fresh-mspecs, read_message,
}

pub length-map : {A B : Type 0} (f : A → B) (xs : List A) → length (map f xs) ≡ length xs
length-map f [] = refl
length-map f (x ∷ xs) = ap suc (length-map f xs)

module _ (P : Platform) (N : NetMsg) (C : Codec P.Mspec) where
  -- What `serialize` writes of a message has the size that get_serialized_size returns, and a node
  -- that receives it gets another message.
  abbrev pub Delivers : Message P → Message P → Type 0
  Delivers m got =
      (bytes : List ℕ) × (serialize_message P N C m ≡ wrote bytes)
      × (length bytes ≡ message_size P N C m)
      × (receive P N C bytes ≡ some (delivered (some got)))

module _ (P : Platform) (N : NetMsg) (C : Codec P.Mspec) (L : IsNetMsg N) where
  delivers :
      (m got : Message P) (os : List (Object P))
      → AllFit P N C os
      → Fresh (map (reread_object C) os) (empty m.kind)
      → check_message P N C m ≡ true
      → Found m.objects (written_keys P N C m) os
      → set_objects (map (reread_object C) os) (empty m.kind) ≡ got
      → length got.objects == 0 ≡ false
      → sizes P N C m.objects ≡ objects_size P N C os
      → Delivers P N C m got
  unfolding serialize_message message_size receive
  delivers m got os h f c found same some_objects size = (
    N.word32 (msg_type m.kind * 0x100_0000) ++ objects_bytes P N C os,
    rw (c, serialize_keys-Found P N C L m (written_keys P N C m) os h found) refl,
    length-append (N.word32 _) (objects_bytes P N C os)
        ∙ rw
            (
              L.length_word32 (msg_type m.kind * 0x100_0000),
              length-objects_bytes P N C L os h,
              size,
            )
            refl,
    rw (read_message P N C L m.kind os h f, same, some_objects) refl,
  )

  -- The objects of a CONFIGURE in the order in which they are written.
  abbrev configure_objects : ℕ → ℕ → ℕ → ℕ → List P.Mspec → List (Object P)
  configure_objects l m s h xs =
      mandatory (msg_sequence_number m)
      ∷ mandatory (session_lifetime l)
      ∷ mandatory (selection_metering_entities s)
      ∷ mandatory (message_hop_count h)
      ∷ map (mspec_object {P = P}) xs

  AllFit-mspecs :
      (xs : List P.Mspec) → All (IsReadable C) xs → AllFit P N C (map (mspec_object {P = P}) xs)
  AllFit-mspecs [] h = tt
  AllFit-mspecs (x ∷ xs) h = (h.0, AllFit-mspecs xs h.1)

  reread-mspecs :
      (xs : List P.Mspec)
      → map (reread_object C) (map (mspec_object {P = P}) xs)
        ≡ map (mspec_object {P = P}) (map (reread C) xs)
  reread-mspecs [] = refl
  reread-mspecs (x ∷ xs) = ap (λ os. mspec_object (reread C x) ∷ os) (reread-mspecs xs)

  configure-Delivers :
      (l m s h : ℕ) (xs : List P.Mspec)
      → (l < u32_mod) × (m < u32_mod) × (s < u32_mod) × (h < u32_mod)
      → 300 + length xs < u32_mod
      → All (IsReadable C) xs
      → Delivers P N C
          (record { kind = configure; objects = configure_store P l m s h xs })
          (record { kind = configure; objects = configure_store P l m s h (map (reread C) xs) })
  unfolding check_configure is_duplicate get_object set_object get set sizes body_size
  configure-Delivers l m s h xs v small fit =
      delivers (record { kind = configure; objects = configure_store P l m s h xs })
        (record { kind = configure; objects = configure_store P l m s h (map (reread C) xs) })
        (configure_objects l m s h xs) (v.1, (v.0, (v.2, (v.3, AllFit-mspecs xs fit))))
        (
          refl,
          (
            refl,
            (
              refl,
              (
                refl,
                subst
                    (λ os.
                      Fresh os
                        (record { kind = configure; objects = configure_store P l m s h [] }))
                    (sym (reread-mspecs xs)) (Fresh-mspecs (map (reread C) xs) _),
              ),
            ),
          ),
        )
        refl
        (
          refl,
          (
            refl,
            (
              refl,
              (
                refl,
                subst
                    (λ n.
                      Found (configure_store P l m s h xs) (mspec_keys 1 n)
                        (map (mspec_object {P = P}) xs))
                    (sym (max_sequence-store P l m s h xs))
                    (Found-mspecs (header l m s h) 0 xs small
                      (omega arith, (omega arith, (omega arith, (omega arith, tt))))),
              ),
            ),
          ),
        )
        (ap
            (λ os.
              set_objects os (record { kind = configure; objects = configure_store P l m s h [] }))
            (reread-mspecs xs)
          ∙ set_objects-mspecs (map (reread C) xs) _
          ∙ set_mspec_objects-store P l m s h [] (map (reread C) xs)
              (omega (arith, length-map (reread C) xs)))
        (positive _) (ap (λ n. 8 + (8 + (8 + (8 + n)))) (sizes-numbered P N C 0 xs))

  -- If the values of a CONFIGURE fit into 32 bits, and its metering specifications are not empty, are
  -- shorter than 16381 bytes and are read completely when their bytes are imported, then `serialize`
  -- writes exactly as many bytes as get_serialized_size returns, and the node that receives these
  -- bytes gets a CONFIGURE with the same values, and with what the import makes of each specification,
  -- in the same order.
  pub configure_roundtrip :
      (l m s h : ℕ) (xs : List P.Mspec)
      → (l < u32_mod) × (m < u32_mod) × (s < u32_mod) × (h < u32_mod)
      → 300 + length xs < u32_mod
      → All (IsReadable C) xs
      → Delivers P N C (build P l m s h xs) (build P l m s h (map (reread C) xs))
  configure_roundtrip l m s h xs v small fit =
      rw
        (
          build-store P l m s h xs small,
          build-store P l m s h (map (reread C) xs) (omega (arith, length-map (reread C) xs)),
        )
        (configure-Delivers l m s h xs v small fit)

  -- A REFRESH with a lifetime and a sequence number of 32 bits is delivered unchanged.
  refresh_roundtrip :
      (l m : ℕ)
      → l < u32_mod
      → m < u32_mod
      → Delivers P N C
          (set_msg_sequence_number m (set_session_lifetime l (empty refresh)))
          (set_msg_sequence_number m (set_session_lifetime l (empty refresh)))
  unfolding check_refresh is_duplicate get_object set_object get set sizes body_size
      set_session_lifetime set_msg_sequence_number
  refresh_roundtrip l m hl hm =
      delivers _ _ (mandatory (msg_sequence_number m) ∷ mandatory (session_lifetime l) ∷ [])
        (hm, (hl, tt)) (refl, (refl, tt)) refl (refl, (refl, tt)) refl refl refl

  -- A RESPONSE with an information code, a sequence number and a lifetime is delivered
  -- unchanged, if its severity has 4 bits, its code 8 and the two numbers 32.
  response_roundtrip :
      (severity code l m : ℕ)
      → severity < 16
      → code < 256
      → l < u32_mod
      → m < u32_mod
      → Delivers P N C
          (set_session_lifetime l
            (set_msg_sequence_number m (set_information_code severity code 0 (empty response))))
          (set_session_lifetime l
            (set_msg_sequence_number m (set_information_code severity code 0 (empty response))))
  unfolding check_response is_duplicate get_object set_object get set sizes body_size
      set_session_lifetime set_msg_sequence_number set_information_code get_max_sequence
  response_roundtrip s c l m hs hc hl hm =
      delivers _ _
        (mandatory (msg_sequence_number m)
          ∷ mandatory (information_code s c 0)
          ∷ mandatory (session_lifetime l)
          ∷ [])
        (hm, ((hs, hc, refl), (hl, tt))) (refl, (refl, (refl, tt))) refl (refl, (refl, (refl, tt)))
        refl refl refl
