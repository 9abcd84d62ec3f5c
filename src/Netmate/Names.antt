-- ===== src/Netmate/Names.antt =====
-- Texts as std::string has them, and the std::map and std::set that are ordered by texts: lists in
-- ascending order.
use Prim.Native.Char.{code}
use Prim.Native.String.{String}
use m_nslp.Prelude.{
  ℕ, zero, suc, ◌+◌, ◌/◌, ◌%◌, Bool, true, false, ◌&&◌, ◌||◌, Option, none, some, List, [], ◌∷◌,
  ◌++◌, ltb, ◌==◌, if◌then◌else◌,
}
use m_nslp.Rule.{Name}

-- The bytes of a literal.
abbrev pub codes : String → Name
codes String.[] = []
codes (String.◌∷◌ c s) = code c ∷ codes s

-- std::string::compare: by bytes, a prefix first.
unfoldable pub name_lt : Name → Name → Bool
name_lt xs [] = false
name_lt [] (y ∷ ys) = true
name_lt (x ∷ xs) (y ∷ ys) = ltb x y || (x == y && name_lt xs ys)

-- `ostringstream <<` of a number that is not negative, for the rounds left.
unfoldable pub digits : ℕ → ℕ → Name
digits zero n = []
digits (suc fuel) n =
    let rest = digits fuel (n / 10) ++ (48 + n % 10) ∷ [] in
    if ltb n 10 then (48 + n) ∷ [] else rest

unfoldable pub decimal : ℕ → Name
unfolding digits
decimal n = digits (suc n) n

module _ {A : Type 0} where
  -- `m.find(k)`
  unfoldable pub find : Name → List (Name × A) → Option A
  find k [] = none
  find k ((j, a) ∷ rest) =
      let later = find k rest in if name_lt j k then later else if name_lt k j then none else some a

  -- `m[k] = a`
  unfoldable pub assign : Name → A → List (Name × A) → List (Name × A)
  assign k a [] = (k, a) ∷ []
  assign k a ((j, b) ∷ rest) =
      let later = assign k a rest in
      if name_lt j k
      then (j, b) ∷ later
      else if name_lt k j
      then (k, a) ∷ (j, b) ∷ rest
      else (j, a) ∷ rest

  -- `m.insert(pair(k, a))`: an entry that is there stays.
  unfoldable pub insert : Name → A → List (Name × A) → List (Name × A)
  insert k a [] = (k, a) ∷ []
  insert k a ((j, b) ∷ rest) =
      let later = insert k a rest in
      if name_lt j k
      then (j, b) ∷ later
      else if name_lt k j
      then (k, a) ∷ (j, b) ∷ rest
      else (j, b) ∷ rest

-- `s.insert(k)` of a std::set.
unfoldable pub add : Name → List Name → List Name
add k [] = k ∷ []
add k (j ∷ rest) =
    let later = add k rest in
    if name_lt j k then j ∷ later else if name_lt k j then k ∷ j ∷ rest else j ∷ rest
