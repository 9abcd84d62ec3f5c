-- ===== src/Session/Placing.antt =====
-- No metering specification of a request is lost between the rule and the missing ones.
use m_nslp.Prelude.{
  ℕ, suc, ◌+◌, ◌≤◌, ◌≡◌, refl, ap, Bool, false, not, ◌&&◌, if◌then◌else◌, none, List, [], ◌∷◌,
  arith, length, Bool-cases, inl, inr,
}
use m_nslp.Platform.{Platform}
use m_nslp.Map.{find, insert}
use m_nslp.Map.Laws
use m_nslp.Rule.{PolicyRule, set_object, get_number_mspec_objects}
use m_nslp.Node.{Node, check}
use m_nslp.Session.{place}

module _ {P : Platform} (d : Node P)
    (distinct : (i j : ℕ) → d.rule_key i ≡ d.rule_key j → i ≡ j) where
  -- The rule's objects are in order, and no key that is still to be made is in use.
  pub record IsFresh (keys : ℕ) (r : PolicyRule P) : Type 0 where
    pub sorted : Laws.IsSorted r.objects
    pub unused : (i : ℕ) → keys ≤ i → find (d.rule_key i) r.objects ≡ none

  set_object-IsFresh :
      (keys : ℕ) (x : P.Mspec) (r : PolicyRule P)
      → IsFresh keys r
      → IsFresh (suc keys) (set_object (d.rule_key keys) x r)
  unfolding set_object
  set_object-IsFresh keys x r h = record {
    sorted = Laws.insert-IsSorted (d.rule_key keys) x r.objects h.sorted;
    unused = λ i l. ground (
      arith,
      Laws.find-insert (d.rule_key keys) (d.rule_key i) x r.objects h.sorted,
      h.unused i,
      distinct keys i,
    );
  }

  length-set_object :
      (keys : ℕ) (x : P.Mspec) (r : PolicyRule P)
      → IsFresh keys r
      → get_number_mspec_objects (set_object (d.rule_key keys) x r)
        ≡ suc (get_number_mspec_objects r)
  unfolding set_object get_number_mspec_objects
  length-set_object keys x r h =
      ground (arith, Laws.length-insert (d.rule_key keys) x r.objects h.sorted, h.unused keys)

  -- With keys that differ from one another and from those of the rule, the loop puts each
  -- specification in exactly one place, makes one key for each that goes into the rule, and
  -- leaves the rule without a key that is still to be made.
  place_counts :
      (takes_part : Bool) (xs : List P.Mspec) (keys : ℕ) (r : PolicyRule P)
      → IsFresh keys r
      → let p = place d takes_part xs keys r in
        (get_number_mspec_objects p.rule + length p.missing
          ≡ get_number_mspec_objects r + length xs)
        × (p.keys + length p.missing ≡ keys + length xs)
        × IsFresh p.keys p.rule
  unfolding place
  place_counts b [] keys r h = (refl, refl, h)
  place_counts b (x ∷ xs) keys r h = elim (Bool-cases (b && check d x)) [
    | inl taken ↦
        let ih =
          place_counts b xs (suc keys) (set_object (d.rule_key keys) x r)
            (set_object-IsFresh keys x r h) in
        rw (taken, place)
          (omega (arith, ih.0, length-set_object keys x r h), omega (arith, ih.1), ih.2)
    | inr left ↦
        let ih = place_counts b xs keys r h in
        rw (left, place) (omega (arith, ih.0), omega (arith, ih.1), ih.2)
  ]

module _ {P : Platform} (d : Node P) where
  -- A node that takes no part, or is no meter, leaves the rule as it was and passes every
  -- specification on, in order.
  place_none :
      (takes_part : Bool) (xs : List P.Mspec) (keys : ℕ) (r : PolicyRule P)
      → (takes_part && d.is_ms_meter) ≡ false
      → ((place d takes_part xs keys r).rule ≡ r)
        × ((place d takes_part xs keys r).missing ≡ xs)
        × ((place d takes_part xs keys r).keys ≡ keys)
  unfolding place check
  place_none b [] keys r h = (refl, refl, refl)
  place_none b (x ∷ xs) keys r h = ground (arith, place_none b xs keys r)

-- The elements that pass a test.
abbrev pub filter_by : {A : Type 0} → (A → Bool) → List A → List A
filter_by test [] = []
filter_by test (x ∷ xs) = if test x then x ∷ filter_by test xs else filter_by test xs

module _ {P : Platform} (d : Node P) where
  -- The specifications of a request that this node installs, and the others, in their order.
  abbrev pub installable : Bool → List P.Mspec → List P.Mspec
  installable takes_part xs = filter_by (λ x. takes_part && check d x) xs

  abbrev pub others : Bool → List P.Mspec → List P.Mspec
  others takes_part xs = filter_by (λ x. not (takes_part && check d x)) xs

  -- A rule with specifications added under the keys from number `keys` on.
  abbrev pub with_objects : ℕ → List P.Mspec → PolicyRule P → PolicyRule P
  with_objects keys [] r = r
  with_objects keys (x ∷ xs) r =
      with_objects (suc keys) xs (record r { objects = insert (d.rule_key keys) x r.objects })

  -- The loop separates the specifications of a request.
  pub place_lem :
      (takes_part : Bool) (xs : List P.Mspec) (keys : ℕ) (r : PolicyRule P)
      → let p = place d takes_part xs keys r in
        (p.rule ≡ with_objects keys (installable takes_part xs) r)
        × (p.missing ≡ others takes_part xs)
        × (p.keys ≡ keys + length (installable takes_part xs))
  unfolding place set_object
  place_lem b [] keys r = (refl, refl, omega arith)
  place_lem b (x ∷ xs) keys r = elim (Bool-cases (b && check d x)) [
    | inl taken ↦
        let ih =
          place_lem b xs (suc keys) (record r { objects = insert (d.rule_key keys) x r.objects }) in
        rw (taken, place, filter_by) (ih.0, ih.1, omega (arith, ih.2))
    | inr left ↦
        let ih = place_lem b xs keys r in
        rw (left, place, filter_by) (ih.0, ap (λ m. x ∷ m) ih.1, ih.2)
  ]
