-- ===== src/Tests/Messages.antt =====
-- The laws of messages at concrete values.
use m_nslp.Prelude.{ℕ, ◌≡◌, ◌<◌, refl, true, some, List, [], ◌∷◌, inl, inr, arith, if◌then◌else◌}
use m_nslp.Msg.Serial.{is_greater_than, distance, limit, is_greater_than_iff}
use m_nslp.Msg.Store.{Key, get, set}
use m_nslp.Msg.Store.Keys.{key_eq, get-set_message_key}
use m_nslp.Msg.Message.{Message}
use m_nslp.Msg.Message.Laws.{build}
use m_nslp.Tests.{net}

is_greater_than_iff_example :
    ((is_greater_than 3 4294967295 ≡ true)
      → (0 < distance 3 4294967295) × (distance 3 4294967295 < limit))
    × ((0 < distance 3 4294967295) × (distance 3 4294967295 < limit)
        → is_greater_than 3 4294967295 ≡ true)
is_greater_than_iff_example = is_greater_than_iff 3 4294967295 (omega arith) (omega arith)

-- The key of a sequence number, and that of the second specification.
abbrev msn_key : Key
msn_key = record { object_type = 247; seq_nbr = 1 }

abbrev mspec_key : Key
mspec_key = record { object_type = 249; seq_nbr = 2 }

abbrev entries : List (Key × ℕ)
entries = (msn_key, 7) ∷ []

get-set_message_key_example :
    get msn_key (set mspec_key 9 entries)
    ≡ (if key_eq mspec_key msn_key then some 9 else get msn_key entries)
get-set_message_key_example =
    get-set_message_key mspec_key msn_key 9 entries (inr (refl, omega arith, omega arith))
      (inl (omega arith, omega arith, refl)) tt

abbrev built : Message net
built = build net 60 7 1 10 (4 ∷ 5 ∷ [])
