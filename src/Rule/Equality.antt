-- ===== src/Rule/Equality.antt =====
-- The comparison of the names that two rules have installed, mt_policy_rule::are_equal.
use m_nslp.Prelude.{ℕ, zero, suc, ◌<◌, ◌≡◌, refl, true, none, some, List, [], ◌∷◌, arith, length}
use m_nslp.Rule.{Name, name_eq, insert_name, sort, compare_names, are_equal}

name_eq_refl : (x : Name) → name_eq x x ≡ true
unfolding name_eq
name_eq_refl [] = refl
name_eq_refl (x ∷ xs) = ground (arith, name_eq_refl xs)

length-insert_name : (x : Name) (ys : List Name) → length (insert_name x ys) ≡ suc (length ys)
unfolding insert_name
length-insert_name x [] = refl
length-insert_name x (y ∷ ys) = ground (arith, length-insert_name x ys)

length-sort : (xs : List Name) → length (sort xs) ≡ length xs
unfolding sort
length-sort [] = refl
length-sort (x ∷ xs) = omega (arith, length-insert_name x (sort xs), length-sort xs)

compare_names_overrun : (n : ℕ) (xs : List Name) → length xs < n → compare_names n xs xs ≡ none
unfolding compare_names
compare_names_overrun zero xs h = elim h [ ]
compare_names_overrun (suc n) [] h = refl
compare_names_overrun (suc n) (x ∷ xs) h =
    rw (name_eq_refl x) (compare_names_overrun n xs (omega arith))

compare_names_same :
    (n : ℕ) (xs : List Name) → n < suc (length xs) → compare_names n xs xs ≡ some true
unfolding compare_names
compare_names_same zero xs h = refl
compare_names_same (suc n) [] h = absurd (omega arith)
compare_names_same (suc n) (x ∷ xs) h = rw (name_eq_refl x) (compare_names_same n xs (omega arith))

-- The loop is bounded by the number of keys of the rule, not by the number of names: names are
-- equal to themselves if there are at least as many names as keys, and otherwise the
-- comparison of names with themselves reads past the end of the vector.
are_equal_self :
    (entries : ℕ) (names : List Name)
    → ((entries < suc (length names)) → are_equal entries names names ≡ some true)
      × ((length names < entries) → are_equal entries names names ≡ none)
unfolding are_equal
are_equal_self entries names = (
  λ h. compare_names_same entries (sort names) (omega (arith, length-sort names)),
  λ h. compare_names_overrun entries (sort names) (omega (arith, length-sort names)),
)
