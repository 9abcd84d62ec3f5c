-- ===== src/Netmate/Commands.antt =====
-- The commands that are made of a metering specification:
-- src/netmate_ipfix_policy_rule_installer.cpp.
use m_nslp.Prelude.{
  ℕ, zero, suc, Bool, true, false, Option, none, some, List, [], ◌∷◌, ◌++◌, if◌then◌else◌,
}
use m_nslp.Node.Monad.{Outcome, ok, thrown, fault, null_pointer, uncaught, out_of_bounds}
use m_nslp.Rule.{Name, name_eq}
use m_nslp.Ipfix.Template.{TemplateType, data_template, option_template, Template, get_numfields}
use m_nslp.Ipfix.Import.{Decoded, done, refused, undefined}
use m_nslp.Ipfix.Message.{
  Message, get_template_list, get_template, same_template_type, field_at, get_field_data_values,
}
use m_nslp.Netmate.Names.{codes, decimal, find, assign, insert, add}
use m_nslp.Netmate.Field.{bad_configuration}
use m_nslp.Netmate.Application.{Applications}
use m_nslp.Netmate.Application
use m_nslp.Netmate.Action.{Actions, MeteringConfig}
use m_nslp.Netmate.Action
use m_nslp.Netmate.Meter.{Config}

abbrev pub chain : {A B : Type 0} → Outcome A → (A → Outcome B) → Outcome B
chain (ok a) f = f a
chain (thrown e) f = thrown e
chain (fault s) f = fault s

-- An mnslp_ipfix_bad_argument is no policy_rule_installer_error, and nothing catches it.
abbrev pub decoded : {A : Type 0} → Decoded A → Outcome A
decoded (done a) = ok a
decoded refused = fault uncaught
decoded undefined = fault out_of_bounds

-- get_application_configuration_container
abbrev pub applications : Config → Outcome Applications
applications cfg = present cfg.app_container
  where
    present : Option Applications → Outcome Applications
    present none = bad_configuration
    present (some c) = ok c

-- get_action_container
abbrev pub actions : Config → Outcome Actions
actions cfg = present cfg.action_container
  where
    present : Option Actions → Outcome Actions
    present none = bad_configuration
    present (some c) = ok c

-- The loops of get_export_template and get_filter_template: without a template of the type the last
-- one is returned.
unfoldable pub find_template :
    TemplateType → List ℕ → Message → Option Template → Outcome (Option Template)
unfolding get_template
find_template type [] m templ = ok templ
find_template type (id ∷ ids) m templ = elim (get_template id m) [
  | refused ↦ fault uncaught
  | undefined ↦ fault out_of_bounds
  | done found ↦ elim found [
    | none ↦ fault null_pointer
    | some t ↦ elim (same_template_type t.type type) [
      | true ↦ ok (some t)
      | false ↦ find_template type ids m (some t)
    ]
  ]
]

-- get_export_template
unfoldable pub get_export_template : Message → Outcome (Option Template)
unfolding find_template get_template_list
get_export_template m = find_template data_template (get_template_list m) m none

-- get_filter_template
unfoldable pub get_filter_template : Message → Outcome (Option Template)
unfolding find_template get_template_list
get_filter_template m = find_template option_template (get_template_list m) m none

-- create_action_command
abbrev pub create_action_command : Message → Name
create_action_command m = codes "/add_task"

abbrev pub rule_group : Name
rule_group = codes "NETMATE_IPFIX"

-- print_filter_values: the map keeps the first value that is entered under a name.
unfoldable pub print_filter_values :
    Name → Bool → List Name → Name → List (Name × Name) → List (Name × Name)
unfolding insert
print_filter_values name first [] comma filter_fields = filter_fields
print_filter_values name first (v ∷ vs) comma filter_fields =
    if first
    then print_filter_values name false vs comma (insert name v filter_fields)
    else print_filter_values name false vs (comma ++ v) (insert name (comma ++ v) filter_fields)

-- The loop of build_command_filter_fields for `count` fields from field `i` on.
unfoldable pub filter_fields_from :
    Config → Message → Template → ℕ → ℕ → List (Name × Name) → Outcome (List (Name × Name))
unfolding print_filter_values
filter_fields_from cfg m t zero i filter_fields = ok filter_fields
filter_fields_from cfg m t (suc count) i filter_fields = chain (decoded (field_at i t)) (λ f.
    chain (applications cfg) (λ c.
      elim (Application.is_filter_field cfg.metering_application f.elem_type c) [
        | false ↦ filter_fields_from cfg m t count (suc i) filter_fields
        | true ↦ chain (decoded (get_field_data_values cfg.float_text t f.elem_type m)) (λ values.
            filter_fields_from cfg m t count (suc i) (
              print_filter_values
                (Application.get_field_traslate cfg.metering_application f.elem_type c) true values
                (codes ",") filter_fields))
      ]))

-- The text of the filters.
unfoldable pub filter_text : List (Name × Name) → Name
filter_text [] = []
filter_text ((name, v) ∷ rest) = codes " " ++ (name ++ (codes "=" ++ (v ++ filter_text rest)))

-- build_command_filter_fields
unfoldable pub build_command_filter_fields : Config → Message → Template → Outcome Name
unfolding filter_fields_from filter_text
build_command_filter_fields cfg m t =
    chain (filter_fields_from cfg m t (get_numfields t) 0 [])
      (λ fields. ok (codes "-r" ++ filter_text fields))

-- Where the packages of a field export to.
unfoldable pub export_target : Config → Name → MeteringConfig → Name
unfolding name_eq
export_target cfg key met_conf =
    if name_eq met_conf.export_procedure (codes "file")
    then codes "file:" ++ (met_conf.export_directory ++ key)
    else if name_eq met_conf.export_procedure (codes "ipfix")
    then codes "ipfix:"
    else codes "file:" ++ (cfg.export_directory ++ key)

-- A procedure is added to the set of a target.
unfoldable pub add_export : Name → Name → List (Name × List Name) → List (Name × List Name)
unfolding find assign add
add_export target procedure exports = elim (find target exports) [
  | none ↦ assign target (procedure ∷ []) exports
  | some procedures ↦ assign target (add procedure procedures) exports
]

-- What a package adds, if there is one.
abbrev pub export_package :
    Config → Name → Option MeteringConfig → List (Name × List Name) → List (Name × List Name)
export_package cfg key none exports = exports
export_package cfg key (some c) exports =
    add_export (export_target cfg key c) c.metering_procedure exports

-- The loop of build_command_export_fields for `count` fields from field `i` on. The set of the
-- translated names, which nothing reads, is left out.
unfoldable pub exports_from :
    Config → Name → Template → ℕ → ℕ → List (Name × List Name) → Outcome (List (Name × List Name))
unfolding add_export
exports_from cfg key t zero i exports = ok exports
exports_from cfg key t (suc count) i exports = chain (decoded (field_at i t)) (λ f.
    chain (applications cfg) (λ c.
      elim (Application.is_export_field cfg.metering_application f.elem_type c) [
        | false ↦ exports_from cfg key t count (suc i) exports
        | true ↦ chain (actions cfg) (λ a. exports_from cfg key t count (suc i) (
            export_package cfg key (Action.get_package cfg.metering_application f.elem_type a)
              exports))
      ]))

abbrev pub procedures_text : List Name → Name
procedures_text [] = []
procedures_text (p ∷ rest) = p ++ (codes " " ++ procedures_text rest)

-- The commands for the targets, numbered from `sequence` on.
unfoldable pub commands_from :
    Name → Name → ℕ → List (Name × List Name) → List (Name × Name) → List (Name × Name)
unfolding insert
commands_from key filter_def sequence [] commands = commands
commands_from key filter_def sequence ((target, procedures) ∷ rest) commands =
    commands_from key filter_def (suc sequence) rest (
      insert (key ++ (codes "_" ++ decimal sequence))
        (codes "Rule="
          ++ (rule_group
              ++ (codes "."
                  ++ (key
                      ++ (codes "_"
                          ++ (decimal sequence
                              ++ (codes " "
                                  ++ (filter_def
                                      ++ (codes " -a "
                                          ++ (procedures_text procedures
                                              ++ (codes "-e target=" ++ target)))))))))))
        commands)

-- build_command_export_fields
unfoldable pub build_command_export_fields :
    Config → Name → Message → Template → Name → Outcome (List (Name × Name))
unfolding exports_from commands_from
build_command_export_fields cfg key m t filter_def =
    chain (exports_from cfg key t (get_numfields t) 0 [])
      (λ exports. ok (commands_from key filter_def 1 exports []))

-- An exception of a policy_rule_installer_error that leaves a function with `throw ()`.
abbrev pub no_throw : {A : Type 0} → Outcome A → Outcome A
no_throw (ok a) = ok a
no_throw (thrown e) = fault uncaught
no_throw (fault s) = fault s

-- The filters of a template, if there is one.
abbrev pub filter_of : Config → Message → Option Template → Outcome Name
filter_of cfg m none = ok []
filter_of cfg m (some t) =
    chain (build_command_filter_fields cfg m t) (λ text. ok (codes " " ++ text))

abbrev pub exports_of :
    Config → Name → Message → Name → Option Template → Outcome (List (Name × Name))
exports_of cfg key m postfields none = ok []
exports_of cfg key m postfields (some t) = build_command_export_fields cfg key m t postfields

-- create_postfield_command
unfoldable pub create_postfield_command : Config → Name → Message → Outcome (List (Name × Name))
unfolding get_filter_template get_export_template build_command_filter_fields
    build_command_export_fields
create_postfield_command cfg key m = no_throw (
    chain (get_filter_template m) (λ filter_template.
      chain (filter_of cfg m filter_template) (λ postfields.
        chain (get_export_template m)
          (λ export_template. exports_of cfg key m postfields export_template))))
