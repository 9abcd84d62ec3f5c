-- ===== src/Rule.antt =====
-- src/policy_rule.cpp: a metering policy rule keeps the metering specifications under fresh
-- keys, and the names of the rules that the metering application installed for each.
pub mod Laws
pub mod Equality
pub mod Nop
use m_nslp.Prelude.{
  ℕ, suc, zero, Bool, true, false, not, ◌&&◌, ◌||◌, Option, none, some, List, [], ◌∷◌, ◌==◌, ltb,
  length, if◌then◌else◌,
}
use m_nslp.Platform.{Platform}
use m_nslp.Map.{find, assign, insert, assign_all, insert_all}

-- The bytes of a `std::string`.
abbrev pub Name : Type 0
Name = List ℕ

pub record PolicyRule (P : Platform) : Type 0 where
  pub objects : List (ℕ × P.Mspec)
  pub rule_keys : List (ℕ × List Name)

-- std::string comparison: by bytes, a prefix first.
name_le : Name → Name → Bool
name_le [] ys = true
name_le (x ∷ xs) [] = false
name_le (x ∷ xs) (y ∷ ys) = ltb x y || (x == y && name_le xs ys)

unfoldable pub name_eq : Name → Name → Bool
name_eq [] [] = true
name_eq (x ∷ xs) (y ∷ ys) = x == y && name_eq xs ys
name_eq _ _ = false

insert_name : Name → List Name → List Name
insert_name x [] = x ∷ []
insert_name x (y ∷ ys) =
    let later = insert_name x ys in if name_le x y then x ∷ y ∷ ys else y ∷ later

-- The result of std::sort. Equal names cannot be told apart, so the order is the only one.
unfoldable pub sort : List Name → List Name
unfolding insert_name name_le
sort [] = []
sort (x ∷ xs) = insert_name x (sort xs)

-- The loop of are_equal, for the rounds left. `none` stands for an access past the end of a
-- vector.
unfoldable pub compare_names : ℕ → List Name → List Name → Option Bool
compare_names zero left right = some true
compare_names (suc n) (x ∷ xs) (y ∷ ys) =
    let later = compare_names n xs ys in if name_eq x y then later else some false
compare_names (suc n) left right = none

-- mt_policy_rule::are_equal. The loop runs to the number of entries in `rule_keys` of the rule,
-- which is the first argument.
unfoldable pub are_equal : ℕ → List Name → List Name → Option Bool
unfolding compare_names sort
are_equal entries left right = compare_names entries (sort left) (sort right)

same_commands : ℕ → List (ℕ × List Name) → List (ℕ × List Name) → Option Bool
same_commands entries [] other = some true
same_commands entries ((key, names) ∷ rest) other =
    let later = same_commands entries rest other in
    elim (find key other) [
      | none ↦ some false
      | some names' ↦ elim (are_equal entries names names') [
        | none ↦ none
        | some same ↦ if same then later else some false
      ]
    ]

same_objects : (P : Platform) → List (ℕ × P.Mspec) → List (ℕ × P.Mspec) → Bool
same_objects P [] other = true
same_objects P ((key, x) ∷ rest) other =
    let later = same_objects P rest other in
    elim (find key other) [ none ↦ false | some y ↦ if P.not_equal x y then false else later ]

module _ {P : Platform} where
  -- The constructor.
  abbrev pub no_rule : PolicyRule P
  no_rule = record { objects = []; rule_keys = [] }

  unfoldable pub get_number_mspec_objects : PolicyRule P → ℕ
  get_number_mspec_objects r = length r.objects

  unfoldable pub get_number_rule_keys : PolicyRule P → ℕ
  get_number_rule_keys r = length r.rule_keys

  -- set_object(key, obj)
  unfoldable pub set_object_at : ℕ → P.Mspec → PolicyRule P → PolicyRule P
  set_object_at key x r = record r { objects = assign key x r.objects }

  -- set_object(obj), with the key that the uuid library makes.
  unfoldable pub set_object : ℕ → P.Mspec → PolicyRule P → PolicyRule P
  set_object key x r = record r { objects = insert key x r.objects }

  unfoldable pub set_commands : ℕ → List Name → PolicyRule P → PolicyRule P
  set_commands key commands r = record r { rule_keys = insert key commands r.rule_keys }

  unfoldable pub clear_commands : PolicyRule P → PolicyRule P
  clear_commands r = record r { rule_keys = [] }

  -- operator=, and with it the copy constructor, which runs the same loops over a new rule.
  unfoldable pub assign_rule : PolicyRule P → PolicyRule P → PolicyRule P
  assign_rule self rhs = record {
    objects = assign_all rhs.objects self.objects;
    rule_keys = insert_all rhs.rule_keys self.rule_keys;
  }

  unfoldable pub copy : PolicyRule P → PolicyRule P
  unfolding assign_rule
  copy rhs = assign_rule no_rule rhs

  -- operator==
  unfoldable pub equals : PolicyRule P → PolicyRule P → Option Bool
  unfolding same_objects same_commands are_equal
  equals r rhs =
      if not (length r.objects == length rhs.objects)
      then some false
      else if not (same_objects P r.objects rhs.objects)
      then some false
      else if not (length r.rule_keys == length rhs.rule_keys)
      then some false
      else same_commands (length r.rule_keys) r.rule_keys rhs.rule_keys
