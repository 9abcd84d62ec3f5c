-- ===== src/Ipfix/Template/Container.antt =====
-- mnslp_template_container of src/msg/mnslp_ipfix_template.cpp.
use m_nslp.Prelude.{
  ℕ, ◌+◌, ◌<◌, ◌≡◌, refl, Bool, true, false, Option, none, some, List, [], ◌∷◌, arith, ◌==◌,
  is_some, if◌then◌else◌,
}
use m_nslp.Ipfix.Template.{Template, exists_template, get_template, delete_template, after_entry}

-- The ids are above `n` and ascend, as in a std::map.
abbrev pub AscendsFrom : ℕ → List (ℕ × Template) → Type 0
AscendsFrom n [] = Unit
AscendsFrom n ((k, t) ∷ rest) = (n < k) × AscendsFrom k rest

absent : (j n : ℕ) (s : List (ℕ × Template)) → AscendsFrom n s → j < n + 1 → get_template j s ≡ none
unfolding get_template
absent j n [] h l = refl
absent j n ((k, t) ∷ rest) h l = ground (arith, absent j k rest h.1)

exists_template-get_template :
    (j : ℕ) (s : List (ℕ × Template)) → exists_template j s ≡ is_some (get_template j s)
unfolding exists_template get_template
exists_template-get_template j [] = refl
exists_template-get_template j ((k, t) ∷ rest) = ground (arith, exists_template-get_template j rest)

-- What delete_template makes of a store.
abbrev pub Deletes : ℕ → List (ℕ × Template) → Option (List (ℕ × Template)) → Type 0
Deletes i s none = exists_template i s ≡ false
Deletes i s (some rest) =
    (exists_template i s ≡ true)
    × ((j : ℕ) → get_template j rest ≡ (if i == j then none else get_template j s))

Deletes-after_entry :
    (i k : ℕ) (t : Template) (s : List (ℕ × Template)) (r : Option (List (ℕ × Template)))
    → k == i ≡ false
    → Deletes i s r
    → Deletes i ((k, t) ∷ s) (after_entry (k, t) r)
unfolding exists_template get_template
Deletes-after_entry i k t s none e h = ground arith
Deletes-after_entry i k t s (some rest) e h = (ground arith, λ j. ground (arith, h.1 j))

Deletes-none : (i : ℕ) → Deletes i [] none
unfolding exists_template
Deletes-none i = refl

Deletes-first :
    (i k : ℕ) (t : Template) (rest : List (ℕ × Template))
    → AscendsFrom k rest
    → k == i ≡ true
    → Deletes i ((k, t) ∷ rest) (some rest)
unfolding exists_template get_template
Deletes-first i k t rest h e = (ground arith, λ j. ground (arith, absent j k rest h))

-- delete_template takes a template out of the container if there is one with the id, and then every
-- other id finds what it found before and this one finds nothing. For an id that is not there
-- it erases the end of the map. exists_template tells which is the case.
delete_template_lem :
    (i n : ℕ) (s : List (ℕ × Template)) → AscendsFrom n s → Deletes i s (delete_template i s)
unfolding delete_template
delete_template_lem i n [] h = Deletes-none i
delete_template_lem i n ((k, t) ∷ rest) h = cases (k == i) refl (delete_template_lem i k rest h.1)
  where
    cases :
        (b : Bool)
        → k == i ≡ b
        → Deletes i rest (delete_template i rest)
        → Deletes i
            ((k, t) ∷ rest)
            (if b then some rest else after_entry (k, t) (delete_template i rest))
    cases true e ih = Deletes-first i k t rest h.1 e
    cases false e ih = Deletes-after_entry i k t rest (delete_template i rest) e ih
