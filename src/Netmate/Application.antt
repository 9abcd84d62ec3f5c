-- ===== src/Netmate/Application.antt =====
-- src/policy_application_configuration_container.cpp: a std::map from the names of metering
-- applications to their mappings.
use m_nslp.Prelude.{Bool, true, false, Option, none, some, List, [], ◌∷◌, if◌then◌else◌}
use m_nslp.Rule.{Name, name_eq}
use m_nslp.Ipfix.{FieldType}
use m_nslp.Netmate.Names.{find, insert}
use m_nslp.Netmate.Field.{FieldMapping, mapping_eq}
use m_nslp.Netmate.Field

abbrev pub Applications : Type 0
Applications = List (Name × FieldMapping)

-- set_application: a mapping that is there stays.
unfoldable pub set_application : Name → FieldMapping → Applications → Applications
set_application key m c = insert key m c

-- The loop of operator==, over the entries of the left side.
unfoldable pub applications_eq : Applications → Applications → Bool
unfolding mapping_eq
applications_eq [] rhs = true
applications_eq ((key, m) ∷ rest) rhs =
    let later = applications_eq rest rhs in
    elim (find key rhs) [ none ↦ false | some n ↦ (if mapping_eq m n then later else false) ]

-- The loops that look for an application.
unfoldable pub mapping_of : Name → Applications → Option FieldMapping
unfolding name_eq
mapping_of app [] = none
mapping_of app ((key, m) ∷ rest) =
    let later = mapping_of app rest in if name_eq app key then some m else later

-- check_field_availability
unfoldable pub check_field_availability : Name → FieldType → Applications → Bool
unfolding mapping_of
check_field_availability app t c = elim (mapping_of app c) [
  | none ↦ false
  | some m ↦ Field.check_field_availability t m
]

-- get_field_traslate
unfoldable pub get_field_traslate : Name → FieldType → Applications → Name
unfolding mapping_of
get_field_traslate app t c = elim (mapping_of app c) [
  | none ↦ []
  | some m ↦ Field.get_field_traslate t m
]

-- is_configuration_field
unfoldable pub is_configuration_field : Name → FieldType → Applications → Bool
unfolding mapping_of
is_configuration_field app t c = elim (mapping_of app c) [
  | none ↦ false
  | some m ↦ Field.is_configuration_field t m
]

-- is_filter_field
unfoldable pub is_filter_field : Name → FieldType → Applications → Bool
unfolding mapping_of
is_filter_field app t c = elim (mapping_of app c) [
  | none ↦ false
  | some m ↦ Field.is_filter_field t m
]

-- is_export_field
unfoldable pub is_export_field : Name → FieldType → Applications → Bool
unfolding mapping_of
is_export_field app t c = elim (mapping_of app c) [
  | none ↦ false
  | some m ↦ Field.is_export_field t m
]
