-- ===== src/Msg/Store/Keys.antt =====
-- The keys that messages use. include/msg/ie_object_key.h orders keys by the sum of their two
-- parts, so two keys can be the same for the map and differ.
use m_nslp.Prelude.{
  ◌+◌, ◌≤◌, ◌<◌, ◌≡◌, ◌⊎◌, some, List, arith, Bool, ◌==◌, ◌&&◌, u32_mod, if◌then◌else◌,
}
use m_nslp.Msg.ObjectType
use m_nslp.Msg.Store.{Key, weight, get, set}
use m_nslp.Msg.Store.Laws.{IsSorted, get-set}

-- The keys that mnslp_msg::set_object makes: sequence number 1 for the classes whose objects
-- are unique, and any other for the metering specifications, short of the end of `uint32`.
abbrev pub IsMessageKey : Key → Type 0
IsMessageKey k =
    ((ObjectType.information_code ≤ k.object_type)
      × (k.object_type ≤ ObjectType.session_lifetime)
      × (k.seq_nbr ≡ 1))
    ⊎ ((k.object_type ≡ ObjectType.ipfix_message)
        × (0 < k.seq_nbr)
        × (k.object_type + k.seq_nbr < u32_mod))

key_same : (i j : Key) → IsMessageKey i → IsMessageKey j → weight i ≡ weight j → i ≡ j
key_same i j p q h = ground arith

-- ie_object_key::operator==
abbrev pub key_eq : Key → Key → Bool
key_eq i j = i.object_type == j.object_type && i.seq_nbr == j.seq_nbr

weight_test : (i j : Key) → IsMessageKey i → IsMessageKey j → (weight i == weight j) ≡ key_eq i j
weight_test i j p q = ground arith

-- On the keys of messages the store is a map whose keys are the pairs of type and number: what
-- is set under one key is found under that key, and all other keys are as they were.
pub get-set_message_key :
    {A : Type 0} (i j : Key) (a : A) (s : List (Key × A))
    → IsMessageKey i
    → IsMessageKey j
    → IsSorted s
    → get j (set i a s) ≡ (if key_eq i j then some a else get j s)
get-set_message_key i j a s p q h = rw (← weight_test i j p q) (get-set i j a s h).0
