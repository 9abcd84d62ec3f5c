-- ===== src/Netmate/Field.antt =====
-- src/policy_field_mapping.cpp and src/policy_application_configuration_container.cpp: which fields
-- a metering application knows, what for, and under which names. The map of a mapping is ordered by
-- the addresses of its keys; the keys differ, so any order of the entries will do.
use m_nslp.Prelude.{
  Bool, true, false, not, ◌&&◌, Option, none, some, List, [], ◌∷◌, ◌++◌, if◌then◌else◌,
}
use m_nslp.Msg.Code
use m_nslp.Node.Monad.{Outcome, ok, thrown, installer_error}
use m_nslp.Rule.{Name, name_eq}
use m_nslp.Ipfix.{FieldType}
use m_nslp.Ipfix.Field.{FieldKey, key_eq}
use m_nslp.Ipfix.Record.{key_of}
use m_nslp.Netmate.Names.{codes}

-- The policy_rule_installer_error of a wrong configuration.
abbrev pub bad_configuration : {A : Type 0} → Outcome A
bad_configuration =
    thrown (installer_error Code.sc_permanent_failure Code.fail_configuration_failed)

-- application_field_mapping
pub record ApplicationField : Type 0 where
  pub is_configuration : Bool
  pub is_filter : Bool
  pub is_export : Bool
  pub application_field_key : Name

-- The constructor, from the texts of a configuration file.
unfoldable pub make_field : Name → Name → Name → Name → Outcome ApplicationField
unfolding name_eq
make_field configuration filter exporting key = named is_configuration is_filter is_export
  where
    is_configuration : Bool
    is_configuration = name_eq configuration (codes "true")

    is_filter : Bool
    is_filter = name_eq filter (codes "true")

    is_export : Bool
    is_export = name_eq exporting (codes "true")

    named : Bool → Bool → Bool → Outcome ApplicationField
    named c f e =
        if c && not f && not e
        then ok (record {
          is_configuration = c;
          is_filter = f;
          is_export = e;
          application_field_key = [];
        })
        else if name_eq key (codes "NoTraslation")
        then bad_configuration
        else ok (record {
          is_configuration = c;
          is_filter = f;
          is_export = e;
          application_field_key = key;
        })

abbrev same_bool : Bool → Bool → Bool
same_bool true b = b
same_bool false b = not b

-- application_field_mapping::operator==
unfoldable pub field_mapping_eq : ApplicationField → ApplicationField → Bool
unfolding name_eq
field_mapping_eq a b =
    same_bool a.is_configuration b.is_configuration
    && same_bool a.is_filter b.is_filter
    && same_bool a.is_export b.is_export
    && name_eq a.application_field_key b.application_field_key

-- policy_field_mapping
pub record FieldMapping : Type 0 where
  pub metering_application : Name
  pub fields : List (FieldKey × ApplicationField)

-- The first entry with a key, which get_field and the other loops look for.
unfoldable pub entry : FieldKey → List (FieldKey × ApplicationField) → Option ApplicationField
entry k [] = none
entry k ((j, f) ∷ rest) = let later = entry k rest in if key_eq j k then some f else later

-- get_field
unfoldable pub get_field : FieldKey → FieldMapping → Outcome ApplicationField
unfolding entry
get_field k m = elim (entry k m.fields) [ none ↦ bad_configuration | some f ↦ ok f ]

-- set_field
unfoldable pub set_field : FieldKey → ApplicationField → FieldMapping → FieldMapping
unfolding get_field
set_field k f m = elim (get_field k m) [
  | ok old ↦ m
  | _ ↦ record m { fields = m.fields ++ (k, f) ∷ [] }
]

-- The copy constructor.
unfoldable pub copy_fields : List (FieldKey × ApplicationField) → List (FieldKey × ApplicationField)
copy_fields [] = []
copy_fields ((k, f) ∷ rest) = (record { eno = k.eno; ftype = k.ftype }, f) ∷ copy_fields rest

-- The loop of operator==, over the entries of the left side; the exception of get_field is caught.
unfoldable pub entries_eq : List (FieldKey × ApplicationField) → FieldMapping → Bool
unfolding get_field field_mapping_eq
entries_eq [] rhs = true
entries_eq ((k, f) ∷ rest) rhs =
    let later = entries_eq rest rhs in
    elim (get_field k rhs) [ ok g ↦ (if field_mapping_eq f g then later else false) | _ ↦ false ]

-- operator==
unfoldable pub mapping_eq : FieldMapping → FieldMapping → Bool
unfolding entries_eq name_eq
mapping_eq m rhs =
    if name_eq m.metering_application rhs.metering_application
    then entries_eq m.fields rhs
    else false

-- check_field_availability
unfoldable pub check_field_availability : FieldType → FieldMapping → Bool
unfolding entry
check_field_availability t m = elim (entry (key_of t) m.fields) [ none ↦ false | some f ↦ true ]

-- get_field_traslate
unfoldable pub get_field_traslate : FieldType → FieldMapping → Name
unfolding entry
get_field_traslate t m = elim (entry (key_of t) m.fields) [
  | none ↦ []
  | some f ↦ f.application_field_key
]

-- is_configuration_field
unfoldable pub is_configuration_field : FieldType → FieldMapping → Bool
unfolding entry
is_configuration_field t m = elim (entry (key_of t) m.fields) [
  | none ↦ false
  | some f ↦ f.is_configuration
]

-- is_filter_field
unfoldable pub is_filter_field : FieldType → FieldMapping → Bool
unfolding entry
is_filter_field t m = elim (entry (key_of t) m.fields) [ none ↦ false | some f ↦ f.is_filter ]

-- is_export_field
unfoldable pub is_export_field : FieldType → FieldMapping → Bool
unfolding entry
is_export_field t m = elim (entry (key_of t) m.fields) [ none ↦ false | some f ↦ f.is_export ]
