-- ===== src/Netmate/Installer/Checking.antt =====
-- A specification that passes `check` has commands, and a filter has one value.
use m_nslp.Prelude.{
  ℕ, zero, suc, ◌+◌, ◌<◌, ◌≡◌, refl, ◌∙◌, ap, subst, inl, inr, true, false, Option, none, some,
  List, [], ◌∷◌, ◌++◌, arith, length, is_some, ◌==◌, Bool-cases,
}
use m_nslp.Node.Monad.{Outcome, ok, thrown, fault}
use m_nslp.Rule.{Name}
use m_nslp.Ipfix.{FieldType}
use m_nslp.Ipfix.Template.{Template, TemplateField, get_numfields}
use m_nslp.Ipfix.Message.{Message, field_at, get_num_templates}
use m_nslp.Netmate.Field.{bad_configuration}
use m_nslp.Netmate.Names.{codes, decimal, name_lt, find, assign, insert, add}
use m_nslp.Netmate.Application.{Applications}
use m_nslp.Netmate.Application
use m_nslp.Netmate.Action.{Actions, MeteringConfig}
use m_nslp.Netmate.Action
use m_nslp.Netmate.Action.Choice.{IsLoaded, get_package-available}
use m_nslp.Netmate.Meter.{Config}
use m_nslp.Netmate.Commands.{
  chain, decoded, applications, actions, no_throw, export_package, add_export, export_target,
  exports_from, commands_from, build_command_export_fields, filter_of, create_postfield_command,
  get_export_template, get_filter_template, print_filter_values, rule_group, procedures_text,
}
use m_nslp.Netmate.Installer.{
  all_fields, can_export, handle_export_fields, check_export, check_message,
}

name_lt_irrefl : (xs : Name) → name_lt xs xs ≡ false
unfolding name_lt
name_lt_irrefl [] = refl
name_lt_irrefl (x ∷ xs) = ground (arith, name_lt_irrefl xs)

module _ {A : Type 0} where
  -- A second value under a name has no effect.
  insert-insert :
      (k : Name) (v w : A) (m : List (Name × A)) → insert k w (insert k v m) ≡ insert k v m
  unfolding insert
  insert-insert k v w [] = ground (arith, name_lt_irrefl k)
  insert-insert k v w ((j, a) ∷ rest) = ground (arith, name_lt_irrefl k, insert-insert k v w rest)

  length-insert_pos : (k : Name) (v : A) (m : List (Name × A)) → 0 < length (insert k v m)
  unfolding insert
  length-insert_pos k v [] = omega arith
  length-insert_pos k v ((j, a) ∷ rest) = ground arith

  length-assign_pos : (k : Name) (v : A) (m : List (Name × A)) → 0 < length (assign k v m)
  unfolding assign
  length-assign_pos k v [] = omega arith
  length-assign_pos k v ((j, a) ∷ rest) = ground arith

rest_ignored :
    (name v : Name) (vs : List Name) (comma : Name) (m : List (Name × Name))
    → print_filter_values name false vs comma (insert name v m) ≡ insert name v m
unfolding print_filter_values
rest_ignored name v [] comma m = refl
rest_ignored name v (w ∷ vs) comma m =
    rw (insert-insert name v (comma ++ w) m) (rest_ignored name v vs (comma ++ w) m)

-- Of the values that a field has in the data records of a filter only the first gets into the
-- command; the others are never printed, whatever they are.
filter_keeps_first :
    (name v : Name) (vs : List Name) (filter_fields : List (Name × Name))
    → print_filter_values name true (v ∷ vs) (codes ",") filter_fields
      ≡ print_filter_values name true (v ∷ []) (codes ",") filter_fields
unfolding print_filter_values
filter_keeps_first name v vs filter_fields = rest_ignored name v vs (codes ",") filter_fields

length-add_export_pos :
    (target procedure : Name) (exports : List (Name × List Name))
    → 0 < length (add_export target procedure exports)
unfolding add_export
length-add_export_pos target procedure exports =
    elim (find target exports)
      as (λ found.
        0
        < length (elim found as (λ x. List (Name × List Name)) [
          | none ↦ assign target (procedure ∷ []) exports
          | some procedures ↦ assign target (add procedure procedures) exports
        ])) [
          | none ↦ length-assign_pos target (procedure ∷ []) exports
          | some procedures ↦ length-assign_pos target (add procedure procedures) exports
        ]

export_package_pos :
    (cfg : Config) (key : Name) (o : Option MeteringConfig) (exports : List (Name × List Name))
    → is_some o ≡ true
    → 0 < length (export_package cfg key o exports)
export_package_pos cfg key none exports h = cc
export_package_pos cfg key (some c) exports h =
    length-add_export_pos (export_target cfg key c) c.metering_procedure exports

chain-eq-ok :
    {A B : Type 0} (m : Outcome A) (f : A → Outcome B) (b : B)
    → chain m f ≡ ok b
    → (a : A) × (m ≡ ok a) × (f a ≡ ok b)
chain-eq-ok (ok a) f b h = (a, refl, h)
chain-eq-ok (thrown e) f b h = cc
chain-eq-ok (fault s) f b h = cc

-- The containers that a configuration has, and what they say of a field that can be exported.
abbrev CanExport : Config → FieldType → Type 0
CanExport cfg field =
    (c : Applications) × (applications cfg ≡ ok c)
    × (Application.is_export_field cfg.metering_application field c ≡ true)
    × (a : Actions) × (actions cfg ≡ ok a)
    × (Action.check_field_availability cfg.metering_application field a ≡ true)

can_export-CanExport :
    (cfg : Config) (field : FieldType) → can_export cfg field ≡ ok true → CanExport cfg field
unfolding can_export
can_export-CanExport cfg field h =
    let (c, has, exported) = chain-eq-ok (applications cfg) _ true h in
    elim (Bool-cases (Application.is_export_field cfg.metering_application field c)) [
      | inr unknown ↦ absurd (ground (arith, unknown, exported))
      | inl known ↦
          let (a, loaded, available) =
            chain-eq-ok (actions cfg)
              (λ a. ok (Action.check_field_availability cfg.metering_application field a)) true
              (rw known at exported) in
          (c, has, known, a, loaded, (cc available))
    ]

-- Every loaded action has its configurations.
abbrev pub ActionsLoaded : Config → Type 0
ActionsLoaded cfg = loaded cfg.action_container
  where
    loaded : Option Actions → Type 0
    loaded none = Unit
    loaded (some a) = IsLoaded a

actions-IsLoaded :
    (cfg : Config) (a : Actions) → ActionsLoaded cfg → actions cfg ≡ ok a → IsLoaded a
actions-IsLoaded cfg a h e = found cfg.action_container h e
  where
    found :
        (o : Option Actions)
        → elim o as (λ x. Type 0) [ none ↦ Unit | some a ↦ IsLoaded a ]
        → (elim o as (λ x. Outcome Actions) [ none ↦ bad_configuration | some c ↦ ok c ]) ≡ ok a
        → IsLoaded a
    found none h e = cc
    found (some b) h e = subst IsLoaded (cc e) h

module _ (cfg : Config) (loaded : ActionsLoaded cfg) where
  -- A field that can be exported adds to the exports.
  exported_field :
      (key : Name) (t : Template) (count i : ℕ) (exports : List (Name × List Name))
      (f : TemplateField)
      → decoded (field_at i t) ≡ ok f
      → CanExport cfg f.elem_type
      → (more : List (Name × List Name)) × (0 < length more)
        × (exports_from cfg key t (suc count) i exports ≡ exports_from cfg key t count (suc i) more)
  unfolding exports_from
  exported_field key t count i exports f at_i (c, has, known, a, have, available) = (
    export_package cfg key (Action.get_package cfg.metering_application f.elem_type a) exports,
    export_package_pos cfg key (Action.get_package cfg.metering_application f.elem_type a) exports (
        get_package-available cfg.metering_application f.elem_type a
          (actions-IsLoaded cfg a loaded have) available),
    rw (at_i, has, chain, known, have) refl,
  )

  exports_from_pos :
      (key : Name) (t : Template) (count i : ℕ) (exports : List (Name × List Name))
      → all_fields (can_export cfg) count i t ≡ ok true
      → 0 < length exports + count
      → (made : List (Name × List Name)) × (exports_from cfg key t count i exports ≡ ok made)
        × (0 < length made)
  unfolding exports_from all_fields
  exports_from_pos key t zero i exports h some_field = (exports, refl, omega arith)
  exports_from_pos key t (suc count) i exports h some_field =
      let (f, at_i, tested) = chain-eq-ok (decoded (field_at i t)) _ true h in
      let (passed, test, rest) = chain-eq-ok (can_export cfg f.elem_type) _ true tested in
      elim (Bool-cases passed) [
        | inr failed ↦ absurd (ground (arith, failed, rest))
        | inl yes_passed ↦
            let (more, positive, same) =
              exported_field key t count i exports f at_i
                (can_export-CanExport cfg f.elem_type (test ∙ ap ok yes_passed)) in
            let (made, e, many) =
              exports_from_pos key t count (suc i) more (rw yes_passed at rest)
                (omega (arith, positive)) in
            (made, same ∙ e, many)
      ]

commands_from_pos :
    (key filter_def : Name) (n : ℕ) (exports : List (Name × List Name))
    (commands : List (Name × Name))
    → 0 < length exports + length commands
    → 0 < length (commands_from key filter_def n exports commands)
unfolding commands_from
commands_from_pos key filter_def n [] commands h = omega (arith, h)
commands_from_pos key filter_def n ((target, procedures) ∷ rest) commands h =
    commands_from_pos key filter_def (suc n) rest
      (insert (key ++ (codes "_" ++ decimal n))
        (codes "Rule="
          ++ (rule_group
              ++ (codes "."
                  ++ (key
                      ++ (codes "_"
                          ++ (decimal n
                              ++ (codes " "
                                  ++ (filter_def
                                      ++ (codes " -a "
                                          ++ (procedures_text procedures
                                              ++ (codes "-e target=" ++ target)))))))))))
        commands)
      (omega (
        arith,
        length-insert_pos (key ++ (codes "_" ++ decimal n))
            (codes "Rule="
              ++ (rule_group
                  ++ (codes "."
                      ++ (key
                          ++ (codes "_"
                              ++ (decimal n
                                  ++ (codes " "
                                      ++ (filter_def
                                          ++ (codes " -a "
                                              ++ (procedures_text procedures
                                                  ++ (codes "-e target=" ++ target)))))))))))
            commands,
      ))

-- `check` of a message looks at the fields of its export template.
check_message-export :
    (cfg : Config) (m : Message) (t : Template)
    → check_message cfg m ≡ ok tt
    → get_export_template m ≡ ok (some t)
    → all_fields (can_export cfg) (get_numfields t) 0 t ≡ ok true
unfolding check_message check_export handle_export_fields
check_message-export cfg m t h e = elim (Bool-cases (get_num_templates m == 2)) [
  | inr other ↦ absurd (ground (arith, other, h))
  | inl two ↦
      let (o, same, rest) = chain-eq-ok (get_export_template m) _ tt (rw two at h) in
      let (u, checked, more) = chain-eq-ok (check_export cfg o) _ tt rest in
      let o_is : o ≡ some t = cc (same, e) in
      let (passed, fields, allowed) =
        chain-eq-ok (handle_export_fields cfg t) _ tt (rw o_is at checked) in
      elim (Bool-cases passed) [
        | inl p ↦ fields ∙ ap ok p
        | inr p ↦ absurd (ground (arith, p, allowed))
      ]
]

-- A specification that passes `check`, and whose export template has a field, is not left without
-- commands: if commands can be made at all, there is at least one. Every action of the configuration
-- has to be loaded with its configurations.
pub checked-commands :
    (cfg : Config) (m : Message) (key : Name) (t : Template) (commands : List (Name × Name))
    → ActionsLoaded cfg
    → check_message cfg m ≡ ok tt
    → get_export_template m ≡ ok (some t)
    → 0 < get_numfields t
    → create_postfield_command cfg key m ≡ ok commands
    → 0 < length commands
unfolding create_postfield_command build_command_export_fields
checked-commands cfg m key t commands loaded checked e fields made =
    let (o, _, rest) =
      chain-eq-ok (get_filter_template m) _ commands (no_throw-eq-ok _ commands made) in
    let (filters, _, after) = chain-eq-ok (filter_of cfg m o) _ commands rest in
    let (x, same, last) = chain-eq-ok (get_export_template m) _ commands after in
    let x_is : x ≡ some t = cc (same, e) in
    let (exports, have, positive) =
      exports_from_pos cfg loaded key t (get_numfields t) 0 []
        (check_message-export cfg m t checked e) (omega (arith, fields)) in
    let (made_exports, have', final) =
      chain-eq-ok (exports_from cfg key t (get_numfields t) 0 []) _ commands (rw x_is at last) in
    let exports_same : exports ≡ made_exports = cc (have, have') in
    let commands_are : commands_from key filters 1 made_exports [] ≡ commands = cc final in
    omega (
      arith,
      commands_from_pos key filters 1 made_exports []
          (omega (arith, positive, ap length exports_same)),
      ap length commands_are,
    )
  where
    no_throw-eq-ok : {A : Type 0} (o : Outcome A) (a : A) → no_throw o ≡ ok a → o ≡ ok a
    no_throw-eq-ok (ok b) a h = h
    no_throw-eq-ok (thrown x) a h = cc
    no_throw-eq-ok (fault s) a h = cc
