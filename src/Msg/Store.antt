-- ===== src/Msg/Store.antt =====
-- src/msg/ie_store.cpp: the objects of a message in a std::map under the key and the order of
-- include/msg/ie_object_key.h. A map is the list of its entries in ascending order of keys.
pub mod Laws
pub mod Keys
use m_nslp.Prelude.{
  ℕ, ◌+◌, Bool, Option, none, some, List, [], ◌∷◌, ltb, leb, ◌==◌, u32, if◌then◌else◌,
}

pub record Key : Type 0 where
  pub object_type : ℕ
  pub seq_nbr : ℕ

-- `object_type + seq_nbr` on `uint32`, by which keys are compared.
abbrev pub weight : Key → ℕ
weight k = u32 (k.object_type + k.seq_nbr)

-- ie_object_key::operator<
abbrev pub key_lt : Key → Key → Bool
key_lt a b = ltb (weight a) (weight b)

module _ {ℓ} {A : Type ℓ} where
  -- `find`: keys are the same for a std::map if neither is less than the other.
  unfoldable pub get : Key → List (Key × A) → Option A
  get id [] = none
  get id ((k, a) ∷ rest) =
      let later = get id rest in if key_lt k id then later else if key_lt id k then none else some a

  -- `entries[id] = ie`: an entry that is there keeps its own key.
  unfoldable pub set : Key → A → List (Key × A) → List (Key × A)
  set id a [] = (id, a) ∷ []
  set id a ((k, b) ∷ rest) =
      let later = set id a rest in
      if key_lt k id
      then (k, b) ∷ later
      else if key_lt id k
      then (id, a) ∷ (k, b) ∷ rest
      else (k, a) ∷ rest

  -- `remove` without the object that it returns, which is `get id`.
  unfoldable pub remove : Key → List (Key × A) → List (Key × A)
  remove id [] = []
  remove id ((k, b) ∷ rest) =
      let later = remove id rest in
      if key_lt k id then (k, b) ∷ later else if key_lt id k then (k, b) ∷ rest else rest

  -- The loop of getMaxSequence.
  unfoldable pub max_sequence_from : ℕ → ℕ → List (Key × A) → ℕ
  max_sequence_from result id [] = result
  max_sequence_from result id ((k, a) ∷ rest) =
      max_sequence_from
        (if k.object_type == id
          then (if leb result k.seq_nbr then k.seq_nbr else result)
          else result)
        id rest

  -- getMaxSequence
  unfoldable pub get_max_sequence : ℕ → List (Key × A) → ℕ
  unfolding max_sequence_from
  get_max_sequence id entries = max_sequence_from 0 id entries

  copy_from : List (Key × A) → List (Key × A) → List (Key × A)
  copy_from acc [] = acc
  copy_from acc ((k, a) ∷ rest) = copy_from (set k a acc) rest

  -- The copy constructor: every entry is set in a new map.
  unfoldable pub copy : List (Key × A) → List (Key × A)
  unfolding copy_from
  copy entries = copy_from [] entries
