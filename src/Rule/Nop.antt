-- ===== src/Rule/Nop.antt =====
-- src/nop_policy_rule_installer.cpp: the installer that installs nothing.
use m_nslp.Prelude.{ℕ, suc, ◌≡◌, refl, ap, ◌∙◌, Bool, true, List, [], ◌∷◌, length}
use m_nslp.Platform.{Platform}
use m_nslp.Map.{insert, insert_all}
use m_nslp.Map.Laws
use m_nslp.Rule.{PolicyRule, Name, copy, get_number_mspec_objects, get_number_rule_keys}
use m_nslp.Rule.Laws.{IsRule, copy_rule-eq}

-- The loop of `install`: each key is installed under its own text.
add_keys : (P : Platform) → List (ℕ × P.Mspec) → List (ℕ × List Name) → List (ℕ × List Name)
add_keys P [] m = m
add_keys P ((key, x) ∷ rest) m = add_keys P rest (insert key (P.unparse key ∷ []) m)

unfoldable pub nop_check : (P : Platform) → P.Mspec → Bool
nop_check P x = true

module _ {P : Platform} where
  unfoldable pub nop_install : PolicyRule P → PolicyRule P
  unfolding add_keys
  nop_install r = let c = copy r in record c { rule_keys = add_keys P c.objects c.rule_keys }

  unfoldable pub nop_remove : PolicyRule P → PolicyRule P
  nop_remove r = copy r

module _ (P : Platform) where
  -- What `install` enters for the objects of a rule.
  abbrev texts : List (ℕ × P.Mspec) → List (ℕ × List Name)
  texts [] = []
  texts ((key, x) ∷ rest) = (key, P.unparse key ∷ []) ∷ texts rest

  add_keys-texts :
      (s : List (ℕ × P.Mspec)) (m : List (ℕ × List Name)) → add_keys P s m ≡ insert_all (texts s) m
  unfolding add_keys insert_all
  add_keys-texts [] m = refl
  add_keys-texts ((key, x) ∷ rest) m = add_keys-texts rest (insert key (P.unparse key ∷ []) m)

  texts-Above : (n : ℕ) (s : List (ℕ × P.Mspec)) → Laws.Above n s → Laws.Above n (texts s)
  texts-Above n [] h = tt
  texts-Above n ((key, x) ∷ rest) h = (h.0, texts-Above key rest h.1)

  texts-IsSorted : (s : List (ℕ × P.Mspec)) → Laws.IsSorted s → Laws.IsSorted (texts s)
  texts-IsSorted [] h = tt
  texts-IsSorted ((key, x) ∷ rest) h = texts-Above key rest h

  length-texts : (s : List (ℕ × P.Mspec)) → length (texts s) ≡ length s
  length-texts [] = refl
  length-texts ((key, x) ∷ rest) = ap suc (length-texts rest)

module _ {P : Platform} where
  install_keys :
      (r : PolicyRule P)
      → IsRule r
      → r.rule_keys ≡ []
      → (nop_install r).rule_keys ≡ texts P r.objects
  unfolding nop_install
  install_keys r h none_yet =
      rw (copy_rule-eq r h, none_yet)
        (add_keys-texts P r.objects []
          ∙ (Laws.fill_empty (texts P r.objects) (texts-IsSorted P r.objects h.objects_sorted)).1)

  -- Installing a rule for the first time keeps its objects and enters one key for each of them;
  -- removing a rule returns all its keys.
  nop_install_lem :
      (r : PolicyRule P)
      → IsRule r
      → r.rule_keys ≡ []
      → ((nop_install r).objects ≡ r.objects)
        × (get_number_rule_keys (nop_install r) ≡ get_number_mspec_objects r)
        × (get_number_rule_keys (nop_remove r) ≡ get_number_rule_keys r)
  unfolding nop_install nop_remove get_number_rule_keys get_number_mspec_objects
  nop_install_lem r h none_yet = (
    ap (λ t. t.objects) (copy_rule-eq r h),
    ap length (install_keys r h none_yet) ∙ length-texts P r.objects,
    ap (λ t. length t.rule_keys) (copy_rule-eq r h),
  )
