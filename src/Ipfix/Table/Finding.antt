-- ===== src/Ipfix/Table/Finding.antt =====
-- Every type of the table is added, and is found by its enterprise number and type.
use mathlib.Core.List.{append_assoc, append-nil}
use m_nslp.Prelude.{
  ℕ, ◌≡◌, refl, subst, ◌∙◌, false, ◌&&◌, Option, none, some, List, [], ◌∷◌, ◌++◌, ◌⊎◌, inl, inr,
  ◌↔◌, arith, ◌==◌, is_some, if◌then◌else◌, Bool-cases,
}
use m_nslp.Ipfix.{FieldType}
use m_nslp.Ipfix.Import.{done, find_type}
use m_nslp.Ipfix.Table.{
  initialize, forward_first, forward_middle, forward_last, reverse_first, reverse_middle,
  reverse_last, add_field_types, add_field_type, is_known,
}

-- A type stands in a list.
abbrev pub Holds : FieldType → List FieldType → Type 0
Holds t [] = ⊥
Holds t (a ∷ rest) = (a ≡ t) ⊎ Holds t rest

-- Every type of a list is found by its numbers.
abbrev pub Finds : List FieldType → Type 0
Finds types = (t : FieldType) → Holds t types → find_type t.eno t.ftype types ≡ some t

find_type-Holds :
    (eno ftype : ℕ) (types : List FieldType) (t : FieldType)
    → find_type eno ftype types ≡ some t
    → Holds t types
unfolding find_type
find_type-Holds eno ftype [] t h = cc
find_type-Holds eno ftype (a ∷ rest) t h = elim (Bool-cases (a.ftype == ftype && a.eno == eno)) [
  | inl found ↦ inl (ground (arith, h))
  | inr other ↦ inr (find_type-Holds eno ftype rest t (ground (arith, h)))
]

find_type-numbers :
    (eno ftype : ℕ) (types : List FieldType) (t : FieldType)
    → find_type eno ftype types ≡ some t
    → (t.eno ≡ eno) × (t.ftype ≡ ftype)
unfolding find_type
find_type-numbers eno ftype [] t h = cc
find_type-numbers eno ftype (a ∷ rest) t h = ground (arith, h, find_type-numbers eno ftype rest t)

abbrev matching : ℕ → ℕ → FieldType → Option FieldType
matching eno ftype a = if a.ftype == ftype && a.eno == eno then some a else none

find_type-append :
    (eno ftype : ℕ) (types : List FieldType) (a : FieldType)
    → find_type eno ftype (types ++ a ∷ []) ≡ (
        if is_some (find_type eno ftype types)
        then find_type eno ftype types
        else matching eno ftype a)
unfolding find_type
find_type-append eno ftype [] a = ground arith
find_type-append eno ftype (b ∷ rest) a = ground (arith, find_type-append eno ftype rest a)

is_known-find_type :
    (a : FieldType) (types : List FieldType)
    → is_known a types ≡ is_some (find_type a.eno a.ftype types)
unfolding is_known find_type
is_known-find_type a [] = refl
is_known-find_type a (b ∷ rest) = ground (arith, is_known-find_type a rest)

Holds-append :
    (t a : FieldType) (types : List FieldType) → Holds t (types ++ a ∷ []) → Holds t types ⊎ (a ≡ t)
Holds-append t a [] (inl e) = inr e
Holds-append t a [] (inr h) = elim h [ ]
Holds-append t a (b ∷ rest) (inl e) = inl (inl e)
Holds-append t a (b ∷ rest) (inr h) = elim (Holds-append t a rest h) [
  | inl older ↦ inl (inr older)
  | inr e ↦ inr e
]

Finds-append :
    (a : FieldType) (types : List FieldType)
    → Finds types
    → is_known a types ≡ false
    → Finds (types ++ a ∷ [])
Finds-append a types finds new t h = elim (Holds-append t a types h) [
  | inl older ↦ ground (arith, find_type-append t.eno t.ftype types a, finds t older)
  | inr e ↦
      ground (arith, find_type-append t.eno t.ftype types a, is_known-find_type t types, e, new)
]

add_field_types-Finds :
    (ts types out : List FieldType)
    → Finds types
    → add_field_types ts types ≡ done out
    → Finds out × (out ≡ types ++ ts)
unfolding add_field_types add_field_type
add_field_types-Finds [] types out finds h = ground (arith, append-nil types)
add_field_types-Finds (a ∷ rest) types out finds h = elim (Bool-cases (is_known a types)) [
  | inl known ↦ absurd (ground (arith, h))
  | inr new ↦
      let (later, e) =
        add_field_types-Finds rest (types ++ a ∷ []) out (Finds-append a types finds new)
          (ground (arith, h)) in
      (later, e ∙ append_assoc types (a ∷ []) rest)
]

-- What is added, in order.
abbrev pub standard_types : List FieldType
standard_types =
    (forward_first ++ (forward_middle ++ forward_last))
    ++ (reverse_first ++ (reverse_middle ++ reverse_last))

pub initialize-standard : initialize [] ≡ done standard_types
unfolding initialize
initialize-standard = refl

add_all-standard : add_field_types standard_types [] ≡ done standard_types
unfolding add_field_types forward_first forward_middle forward_last reverse_first reverse_middle
    reverse_last
add_all-standard = refl

-- A message that is initialized knows exactly the types of the two tables, and no call of the
-- initialization throws because a type is there already: a type of the tables is found by its
-- enterprise number and its number, and what is found for two numbers is a type of the tables that
-- has these numbers.
pub initialize_lem :
    (eno ftype : ℕ) (t : FieldType)
    → (initialize [] ≡ done standard_types)
      × ((find_type eno ftype standard_types ≡ some t)
          ↔ ((t.eno ≡ eno) × (t.ftype ≡ ftype) × Holds t standard_types))
initialize_lem eno ftype t = (
  initialize-standard,
  (
    λ h. (
      (find_type-numbers eno ftype standard_types t h).0,
      (find_type-numbers eno ftype standard_types t h).1,
      find_type-Holds eno ftype standard_types t h,
    ),
    λ h.
        subst (λ e. find_type e ftype standard_types ≡ some t) h.0
          (subst (λ f. find_type t.eno f standard_types ≡ some t) h.1
            ((add_field_types-Finds standard_types [] standard_types nothing_to_find
                add_all-standard).0
              t h.2)),
  ),
)
  where
    nothing_to_find : Finds []
    nothing_to_find t h = elim h [ ]
