-- ===== src/Map.antt =====
-- A std::map from numbers: the list of its entries in ascending order of keys. It stands for the
-- maps of include/policy_rule.h and the session table of include/session_manager.h.
pub mod Laws
use m_nslp.Prelude.{ℕ, Option, none, some, List, [], ◌∷◌, ltb, is_some, Bool, if◌then◌else◌}

module _ {ℓ} {A : Type ℓ} where
  unfoldable pub find : ℕ → List (ℕ × A) → Option A
  find k [] = none
  find k ((j, a) ∷ rest) =
      let later = find k rest in if ltb j k then later else if ltb k j then none else some a

  -- `m[k] = a`
  unfoldable pub assign : ℕ → A → List (ℕ × A) → List (ℕ × A)
  assign k a [] = (k, a) ∷ []
  assign k a ((j, b) ∷ rest) =
      let later = assign k a rest in
      if ltb j k then (j, b) ∷ later else if ltb k j then (k, a) ∷ (j, b) ∷ rest else (j, a) ∷ rest

  -- `m.insert(pair(k, a))`: an entry that is there stays.
  unfoldable pub insert : ℕ → A → List (ℕ × A) → List (ℕ × A)
  insert k a [] = (k, a) ∷ []
  insert k a ((j, b) ∷ rest) =
      let later = insert k a rest in
      if ltb j k then (j, b) ∷ later else if ltb k j then (k, a) ∷ (j, b) ∷ rest else (j, b) ∷ rest

  -- `m.erase(k)`
  unfoldable pub erase : ℕ → List (ℕ × A) → List (ℕ × A)
  erase k [] = []
  erase k ((j, b) ∷ rest) =
      let later = erase k rest in
      if ltb j k then (j, b) ∷ later else if ltb k j then (j, b) ∷ rest else rest

  -- The loops that write the entries of one map into another.
  unfoldable pub assign_all : List (ℕ × A) → List (ℕ × A) → List (ℕ × A)
  assign_all [] m = m
  assign_all ((k, a) ∷ rest) m = assign_all rest (assign k a m)

  unfoldable pub insert_all : List (ℕ × A) → List (ℕ × A) → List (ℕ × A)
  insert_all [] m = m
  insert_all ((k, a) ∷ rest) m = insert_all rest (insert k a m)
