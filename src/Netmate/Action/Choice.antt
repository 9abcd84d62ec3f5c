-- ===== src/Netmate/Action/Choice.antt =====
-- A field that is available to a metering application has a configuration.
use m_nslp.Prelude.{
  ℕ, ◌≡◌, refl, true, false, Option, none, some, List, [], ◌∷◌, All, arith, is_some, inl, inr,
  Bool-cases,
}
use m_nslp.Rule.{Name, name_eq}
use m_nslp.Ipfix.{FieldType}
use m_nslp.Netmate.Action.{
  ActionMapping, MeteringConfig, PolicyAction, Actions, Entry, before, put, sort, entries, first_of,
  or_else, availability, configuration, action_available, action_package, when_true,
  check_field_availability, get_package, mapping_priority,
}

-- Every mapping was read together with a configuration.
abbrev pub HasConfigurations : PolicyAction → Type 0
HasConfigurations a = All (λ e. is_some (e.1.meter_config) ≡ true) a.action_mappings

abbrev pub IsLoaded : Actions → Type 0
IsLoaded c = All (λ e. HasConfigurations e.1) c

module _ {A : Type 0} (P : A → Type 0) where
  put-All :
      (a : Entry A) (s : List (Entry A)) → P a.2 → All (λ e. P e.2) s → All (λ e. P e.2) (put a s)
  unfolding put
  put-All a [] h k = (h, tt)
  put-All a (b ∷ rest) h k = elim (Bool-cases (before b a)) [
    | inl later ↦ rw later (k.0, put-All a rest h k.1)
    | inr here ↦ rw here (h, (k.0, k.1))
  ]

  sort-All : (s : List (Entry A)) → All (λ e. P e.2) s → All (λ e. P e.2) (sort s)
  unfolding sort
  sort-All [] h = tt
  sort-All (a ∷ rest) h = put-All a (sort rest) h.0 (sort-All rest h.1)

  entries-All :
      (priority : A → ℕ) (m : List (Name × A))
      → All (λ e. P e.1) m
      → All (λ e. P e.2) (entries priority m)
  entries-All priority [] h = tt
  entries-All priority ((key, a) ∷ rest) h = (h.0, entries-All priority rest h.1)

  in_order-All :
      (priority : A → ℕ) (m : List (Name × A))
      → All (λ e. P e.1) m
      → All (λ e. P e.2) (sort (entries priority m))
  in_order-All priority m h = sort-All (entries priority m) (entries-All priority m h)

available-configuration :
    (app : Name) (t : FieldType) (s : List (Entry ActionMapping))
    → All (λ e. is_some (e.2.meter_config) ≡ true) s
    → or_else false (first_of (availability app t) s) ≡ true
    → is_some (or_else none (first_of (configuration app t) s)) ≡ true
unfolding first_of
available-configuration app t [] h k = cc
available-configuration app t ((p, key, m) ∷ rest) h k =
    elim (Bool-cases (name_eq app m.mapping.metering_application)) [
      | inr other ↦ ground (arith, other, k, available-configuration app t rest h.1)
      | inl same ↦ ground (arith, same, k, h.0)
    ]

available-package :
    (app : Name) (t : FieldType) (s : List (Entry PolicyAction))
    → All (λ e. HasConfigurations e.2) s
    → or_else false (first_of (λ a. when_true (action_available app t a)) s) ≡ true
    → is_some (first_of (action_package app t) s) ≡ true
unfolding first_of action_available action_package
available-package app t [] h k = cc
available-package app t ((p, key, a) ∷ rest) h k = elim (Bool-cases (action_available app t a)) [
  | inl here ↦ found_here (action_package app t a) (
      available-configuration app t (sort (entries mapping_priority a.action_mappings))
        (in_order-All (λ m. is_some (m.meter_config) ≡ true) mapping_priority a.action_mappings h.0)
        here)
  | inr later ↦
      found_later (action_package app t a)
        (available-package app t rest h.1 (ground (arith, later, k)))
]
  where
    found_here :
        (o : Option MeteringConfig)
        → is_some o ≡ true
        → is_some (elim o [ none ↦ first_of (action_package app t) rest | some x ↦ some x ]) ≡ true
    found_here none h = cc
    found_here (some x) h = refl

    found_later :
        (o : Option MeteringConfig)
        → is_some (first_of (action_package app t) rest) ≡ true
        → is_some (elim o [ none ↦ first_of (action_package app t) rest | some x ↦ some x ]) ≡ true
    found_later none h = h
    found_later (some x) h = refl

-- If every mapping has a configuration, then a field that check_field_availability accepts for an
-- application has a package, so a field that passed `check` is not left out of the commands.
pub get_package-available :
    (app : Name) (t : FieldType) (c : Actions)
    → IsLoaded c
    → check_field_availability app t c ≡ true
    → is_some (get_package app t c) ≡ true
unfolding check_field_availability get_package
get_package-available app t c h k =
    available-package app t (sort (entries (λ a. a.priority) c))
      (in_order-All HasConfigurations (λ a. a.priority) c h) k
