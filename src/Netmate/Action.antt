-- ===== src/Netmate/Action.antt =====
-- src/netmate_ipfix_metering_config.cpp, src/policy_action_mapping.cpp, src/policy_action.cpp and
-- src/policy_action_container.cpp: which procedures of the meter measure a field, by priorities.
pub mod Choice
use m_nslp.Prelude.{
  ℕ, Bool, true, false, not, ◌&&◌, ◌||◌, Option, none, some, List, [], ◌∷◌, ltb, ◌==◌, length,
  if◌then◌else◌,
}
use m_nslp.Msg.Code
use m_nslp.Node.Monad.{Outcome, ok, thrown, fault, null_pointer}
use m_nslp.Rule.{Name, name_eq}
use m_nslp.Ipfix.{FieldType}
use m_nslp.Netmate.Names.{name_lt, find, assign}
use m_nslp.Netmate.Field.{FieldMapping, mapping_eq, bad_configuration}
use m_nslp.Netmate.Field

-- netmate_ipfix_metering_config. Priorities are numbers that are not negative. The interval is the
-- text from which the source makes a `double`.
pub record MeteringConfig : Type 0 where
  pub priority : ℕ
  pub metering_procedure : Name
  pub export_procedure : Name
  pub export_directory : Name
  pub export_report_interval : Name

-- netmate_ipfix_metering_config::is_equal
unfoldable pub config_eq : MeteringConfig → MeteringConfig → Bool
unfolding name_eq
config_eq a b =
    a.priority == b.priority
    && name_eq a.metering_procedure b.metering_procedure
    && name_eq a.export_procedure b.export_procedure
    && name_eq a.export_directory b.export_directory
    && name_eq a.export_report_interval b.export_report_interval

-- policy_action_mapping: a mapping of fields, with a configuration.
pub record ActionMapping : Type 0 where
  pub mapping : FieldMapping
  pub meter_config : Option MeteringConfig

-- `numeric_limits<int>::max()`
abbrev pub int_max : ℕ
int_max = 2147483647

-- policy_action_mapping::get_priority
unfoldable pub mapping_priority : ActionMapping → ℕ
mapping_priority m = elim (m.meter_config) [ none ↦ int_max | some c ↦ c.priority ]

-- policy_action_mapping::is_equal, which follows both pointers.
unfoldable pub action_mapping_eq : ActionMapping → ActionMapping → Outcome Bool
unfolding config_eq mapping_eq
action_mapping_eq a b = elim (a.meter_config) [
  | none ↦ fault null_pointer
  | some c ↦ elim (b.meter_config) [
    | none ↦ fault null_pointer
    | some d ↦ ok (config_eq c d && mapping_eq a.mapping b.mapping)
  ]
]

-- netmate_ipfix_policy_action_mapping::get_key
unfoldable pub get_key : ActionMapping → Outcome Name
get_key m = elim (m.meter_config) [ none ↦ bad_configuration | some c ↦ ok c.metering_procedure ]

-- policy_action
pub record PolicyAction : Type 0 where
  pub action : Name
  pub priority : ℕ
  pub action_mappings : List (Name × ActionMapping)

-- set_action_mapping of a mapping that is not NULL
unfoldable pub set_action_mapping : Name → ActionMapping → PolicyAction → PolicyAction
set_action_mapping app m a = record a { action_mappings = assign app m a.action_mappings }

-- The loop of operator==, over the mappings of the left side.
unfoldable pub mappings_eq :
    List (Name × ActionMapping) → List (Name × ActionMapping) → Outcome Bool
unfolding action_mapping_eq
mappings_eq [] rhs = ok true
mappings_eq ((key, m) ∷ rest) rhs = elim (find key rhs) [
  | none ↦ ok false
  | some n ↦ elim (action_mapping_eq m n) [
    | ok same ↦ elim same [ true ↦ mappings_eq rest rhs | false ↦ ok false ]
    | thrown e ↦ thrown e
    | fault s ↦ fault s
  ]
]

-- policy_action::operator==
unfoldable pub action_eq : PolicyAction → PolicyAction → Outcome Bool
unfolding mappings_eq name_eq
action_eq a rhs =
    if name_eq a.action rhs.action && a.priority == rhs.priority
    then mappings_eq a.action_mappings rhs.action_mappings
    else ok false

-- The loop of policy_action::operator=, which enters the mappings among those that are there.
unfoldable pub enter_mappings : List (Name × ActionMapping) → PolicyAction → PolicyAction
unfolding set_action_mapping
enter_mappings [] a = a
enter_mappings ((app, m) ∷ rest) a = enter_mappings rest (set_action_mapping app m a)

-- policy_action::operator=
unfoldable pub assign_action : PolicyAction → PolicyAction → PolicyAction
unfolding enter_mappings
assign_action a rhs =
    enter_mappings rhs.action_mappings (record a { action = rhs.action; priority = rhs.priority })

-- An entry of a map with its priority. The source sorts pairs of a priority and a key, and then finds
-- the entry of a key in the map again; here the pair keeps its entry.
abbrev pub Entry : Type 0 → Type 0
Entry A = ℕ × Name × A

-- The order of the pairs.
abbrev pub before : {A : Type 0} → Entry A → Entry A → Bool
before a b = ltb a.0 b.0 || (a.0 == b.0 && name_lt a.1 b.1)

module _ {A : Type 0} where
  unfoldable pub put : Entry A → List (Entry A) → List (Entry A)
  put a [] = a ∷ []
  put a (b ∷ rest) = let later = put a rest in if before b a then b ∷ later else a ∷ b ∷ rest

  -- The result of std::sort; the keys of a map differ, so no two pairs are equal.
  unfoldable pub sort : List (Entry A) → List (Entry A)
  unfolding put
  sort [] = []
  sort (a ∷ rest) = put a (sort rest)

  -- The pairs for the entries of a map.
  abbrev pub entries : (A → ℕ) → List (Name × A) → List (Entry A)
  entries priority [] = []
  entries priority ((key, a) ∷ rest) = (priority a, key, a) ∷ entries priority rest

  -- The loops over the sorted pairs end with the first result that there is.
  unfoldable pub first_of : {R : Type 0} → (A → Option R) → List (Entry A) → Option R
  first_of f [] = none
  first_of f ((p, key, a) ∷ rest) = elim (f a) [ none ↦ first_of f rest | some x ↦ some x ]

abbrev pub or_else : {R : Type 0} → R → Option R → R
or_else r none = r
or_else r (some x) = x

-- The mappings of an action, by priority.
abbrev pub mappings_in_order : PolicyAction → List (Entry ActionMapping)
mappings_in_order a = sort (entries mapping_priority a.action_mappings)

-- The first mapping of an application decides whether a field is available.
abbrev pub availability : Name → FieldType → ActionMapping → Option Bool
availability app t m =
    if name_eq app m.mapping.metering_application
    then some (Field.check_field_availability t m.mapping)
    else none

-- policy_action::check_field_availability
unfoldable pub action_available : Name → FieldType → PolicyAction → Bool
unfolding first_of sort mapping_priority name_eq
action_available app t a = or_else false (first_of (availability app t) (mappings_in_order a))

-- policy_action::get_field_traslate
unfoldable pub action_traslate : Name → FieldType → PolicyAction → Name
unfolding first_of sort mapping_priority name_eq
action_traslate app t a = or_else [] (
    first_of
      (λ m.
        if name_eq app m.mapping.metering_application
        then some (Field.get_field_traslate t m.mapping)
        else none)
      (mappings_in_order a))

-- The configuration of a mapping of the application that has the field; it may be NULL.
abbrev pub configuration : Name → FieldType → ActionMapping → Option (Option MeteringConfig)
configuration app t m =
    if name_eq app m.mapping.metering_application && Field.check_field_availability t m.mapping
    then some m.meter_config
    else none

-- policy_action::get_package
unfoldable pub action_package : Name → FieldType → PolicyAction → Option MeteringConfig
unfolding first_of sort mapping_priority name_eq
action_package app t a = or_else none (first_of (configuration app t) (mappings_in_order a))

-- policy_action_container
abbrev pub Actions : Type 0
Actions = List (Name × PolicyAction)

-- policy_action_container::set_policy_action: `actions[key] = _action`, where a new entry is the
-- action of the constructor before it is assigned to.
unfoldable pub set_policy_action : Name → PolicyAction → Actions → Actions
unfolding assign_action
set_policy_action key a c = elim (find key c) [
  | none ↦
      assign key (assign_action (record { action = []; priority = 0; action_mappings = [] }) a) c
  | some old ↦ assign key (assign_action old a) c
]

-- policy_action_container::operator==, over the actions of the left side.
unfoldable pub actions_eq : Actions → Actions → Outcome Bool
unfolding action_eq
actions_eq [] rhs = ok true
actions_eq ((key, a) ∷ rest) rhs = elim (find key rhs) [
  | none ↦ ok false
  | some b ↦ elim (action_eq a b) [
    | ok same ↦ elim same [ true ↦ actions_eq rest rhs | false ↦ ok false ]
    | thrown e ↦ thrown e
    | fault s ↦ fault s
  ]
]

-- The actions, by priority.
abbrev pub actions_in_order : Actions → List (Entry PolicyAction)
actions_in_order c = sort (entries (λ a. a.priority) c)

abbrev pub when_true : Bool → Option Bool
when_true true = some true
when_true false = none

abbrev pub when_not_empty : Name → Option Name
when_not_empty [] = none
when_not_empty (x ∷ xs) = some (x ∷ xs)

-- policy_action_container::check_field_availability
unfoldable pub check_field_availability : Name → FieldType → Actions → Bool
unfolding first_of sort action_available
check_field_availability app t c =
    or_else false (first_of (λ a. when_true (action_available app t a)) (actions_in_order c))

-- policy_action_container::get_field_traslate
unfoldable pub get_field_traslate : Name → FieldType → Actions → Name
unfolding first_of sort action_traslate
get_field_traslate app t c =
    or_else [] (first_of (λ a. when_not_empty (action_traslate app t a)) (actions_in_order c))

-- policy_action_container::get_package
unfoldable pub get_package : Name → FieldType → Actions → Option MeteringConfig
unfolding first_of sort action_package
get_package app t c = first_of (action_package app t) (actions_in_order c)
