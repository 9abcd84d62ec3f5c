-- ===== src/Netmate/Installer.antt =====
-- The installer of src/netmate_ipfix_policy_rule_installer.cpp: check, install and remove.
pub mod Checking
pub mod Removal
pub mod Installing
pub mod Complete
use m_nslp.Prelude.{
  ℕ, zero, suc, Bool, true, false, not, Option, none, some, List, [], ◌∷◌, ◌++◌, ◌==◌, ltb, length,
  if◌then◌else◌,
}
use m_nslp.Platform.{Platform}
use m_nslp.Msg.Code
use m_nslp.Node.{Installer}
use m_nslp.Node.Monad.{Outcome, ok, thrown, fault, installer_error, assertion_failed}
use m_nslp.Rule.{Name, PolicyRule, no_rule, set_object_at, set_commands, clear_commands, copy}
use m_nslp.Ipfix.{FieldType}
use m_nslp.Ipfix.Template.{Template, get_numfields}
use m_nslp.Ipfix.Message.{Message, get_num_templates, field_at, include_all_data_fields}
use m_nslp.Netmate.Names.{codes}
use m_nslp.Netmate.Application
use m_nslp.Netmate.Action
use m_nslp.Netmate.Meter.{Config, Meter, Request, execute_command}
use m_nslp.Netmate.Commands.{
  chain, decoded, applications, actions, get_export_template, get_filter_template,
  create_action_command, rule_group, create_postfield_command,
}

-- The loops over the fields of a template that return at the first field that fails a test, for
-- `count` fields from field `i` on.
unfoldable pub all_fields : (FieldType → Outcome Bool) → ℕ → ℕ → Template → Outcome Bool
all_fields test zero i t = ok true
all_fields test (suc count) i t = chain (decoded (field_at i t)) (λ f.
    chain (test f.elem_type)
      (λ passed. elim passed [ true ↦ all_fields test count (suc i) t | false ↦ ok false ]))

-- The body of the loop of handle_export_fields.
unfoldable pub can_export : Config → FieldType → Outcome Bool
can_export cfg field = chain (applications cfg) (λ c.
    elim (Application.is_export_field cfg.metering_application field c) [
      | false ↦ ok false
      | true ↦
          chain (actions cfg)
            (λ a. ok (Action.check_field_availability cfg.metering_application field a))
    ])

-- handle_export_fields
unfoldable pub handle_export_fields : Config → Template → Outcome Bool
unfolding all_fields can_export
handle_export_fields cfg t = all_fields (can_export cfg) (get_numfields t) 0 t

-- The body of the loop of handle_filter_fields.
unfoldable pub can_filter : Config → FieldType → Outcome Bool
can_filter cfg field =
    chain (applications cfg)
      (λ c. ok (Application.check_field_availability cfg.metering_application field c))

-- handle_filter_fields
unfoldable pub handle_filter_fields : Config → Template → Outcome Bool
unfolding all_fields can_filter
handle_filter_fields cfg t = all_fields (can_filter cfg) (get_numfields t) 0 t

-- The exception for a specification that is refused.
abbrev pub invalid : ℕ → Outcome (Unit {0})
invalid code = thrown (installer_error Code.sc_signaling_session_failures code)

abbrev pub unless : Bool → ℕ → Outcome (Unit {0}) → Outcome (Unit {0})
unless true code next = next
unless false code next = invalid code

-- The first part of `check`.
unfoldable pub check_export : Config → Option Template → Outcome (Unit {0})
unfolding handle_export_fields
check_export cfg none = invalid Code.sigfail_wrong_conf_message
check_export cfg (some t) =
    chain (handle_export_fields cfg t)
      (λ passed. unless passed Code.sigfail_rule_action_not_applicable (ok tt))

-- The second part of `check`.
unfoldable pub check_filter : Config → Message → Option Template → Outcome (Unit {0})
unfolding handle_filter_fields
check_filter cfg m none = invalid Code.sigfail_wrong_conf_message
check_filter cfg m (some t) = chain (decoded (include_all_data_fields t m)) (λ included.
    unless included Code.sigfail_wrong_conf_message (
      chain (handle_filter_fields cfg t)
        (λ passed. unless passed Code.sigfail_filter_action_not_applicable (ok tt))))

-- `check` of a message.
unfoldable pub check_message : Config → Message → Outcome (Unit {0})
unfolding check_export check_filter get_num_templates get_export_template get_filter_template
check_message cfg m =
    if get_num_templates m == 2
    then chain (get_export_template m) (λ exported.
      chain (check_export cfg exported)
        (λ _. chain (get_filter_template m) (λ filtered. check_filter cfg m filtered)))
    else invalid Code.sigfail_wrong_conf_message

-- The commands of one specification: the keys of those that were executed. A policy_rule_installer_error
-- is caught.
unfoldable pub run_commands :
    Config
    → Meter
    → Name
    → List (Name × Name)
    → List Name
    → List Request
    → Outcome (List Name) × List Request
unfolding execute_command
run_commands cfg meter action [] rule_keys sent = (ok rule_keys, sent)
run_commands cfg meter action ((key, command) ∷ rest) rule_keys sent =
    elim ((execute_command cfg meter action command sent).0) [
      | ok _ ↦
          run_commands cfg meter action rest (rule_keys ++ key ∷ [])
            (execute_command cfg meter action command sent).1
      | thrown e ↦
          run_commands cfg meter action rest rule_keys
            (execute_command cfg meter action command sent).1
      | fault s ↦ (fault s, (execute_command cfg meter action command sent).1)
    ]

module _ {P : Platform} where
  -- The rule that is returned, after a specification.
  unfoldable pub keep_installed : ℕ → P.Mspec → List Name → PolicyRule P → PolicyRule P
  keep_installed key x [] rule = rule
  keep_installed key x (k ∷ ks) rule = set_commands key (k ∷ ks) (set_object_at key x rule)

module _ (P : Platform) (message? : P.Mspec → Option Message) (cfg : Config) (meter : Meter) where
  -- get_ipfix_message, where `message?` is the `dynamic_cast`.
  unfoldable pub get_ipfix_message : P.Mspec → Outcome Message
  get_ipfix_message x = elim (message? x) [ none ↦ fault assertion_failed | some m ↦ ok m ]

  -- check
  unfoldable pub check : P.Mspec → Outcome (Unit {0})
  unfolding get_ipfix_message check_message
  check x = chain (get_ipfix_message x) (λ m. check_message cfg m)

  -- The commands of a specification under a key.
  unfoldable pub commands_of : ℕ → P.Mspec → Outcome (List (Name × Name))
  unfolding get_ipfix_message create_postfield_command
  commands_of key x =
      chain (get_ipfix_message x) (λ m. create_postfield_command cfg (P.unparse key) m)

  -- The loop of `install` over the objects of a rule.
  unfoldable pub install_objects :
      List (ℕ × P.Mspec) → PolicyRule P → List Request → Outcome (PolicyRule P) × List Request
  unfolding commands_of run_commands keep_installed
  install_objects [] rule sent = (ok rule, sent)
  install_objects ((key, x) ∷ rest) rule sent = elim (commands_of key x) [
    | thrown e ↦ (thrown e, sent)
    | fault s ↦ (fault s, sent)
    | ok commands ↦ elim ((run_commands cfg meter (codes "/add_task") commands [] sent).0) [
      | thrown e ↦ (thrown e, (run_commands cfg meter (codes "/add_task") commands [] sent).1)
      | fault s ↦ (fault s, (run_commands cfg meter (codes "/add_task") commands [] sent).1)
      | ok keys ↦
          install_objects rest (keep_installed key x keys rule)
            (run_commands cfg meter (codes "/add_task") commands [] sent).1
    ]
  ]

  -- install
  unfoldable pub install : PolicyRule P → List Request → Outcome (PolicyRule P) × List Request
  unfolding install_objects
  install rule sent = install_objects rule.objects no_rule sent

-- The command that removes a rule of the meter.
unfoldable pub removal_of : Name → Name
removal_of key = codes "RuleID=" ++ (rule_group ++ (codes "." ++ key))

-- The loop of `remove` over the names of the rules of one specification. What is kept is the text
-- that was sent.
unfoldable pub remove_names :
    Config → Meter → List Name → List Name → List Request → Outcome (List Name) × List Request
unfolding execute_command removal_of
remove_names cfg meter [] return_keys sent = (ok return_keys, sent)
remove_names cfg meter (key ∷ rest) return_keys sent =
    elim ((execute_command cfg meter (codes "/rm_task") (removal_of key) sent).0) [
      | ok _ ↦
          remove_names cfg meter rest (return_keys ++ removal_of key ∷ [])
            (execute_command cfg meter (codes "/rm_task") (removal_of key) sent).1
      | thrown e ↦
          remove_names cfg meter rest return_keys
            (execute_command cfg meter (codes "/rm_task") (removal_of key) sent).1
      | fault s ↦ (fault s, (execute_command cfg meter (codes "/rm_task") (removal_of key) sent).1)
    ]

module _ {P : Platform} (cfg : Config) (meter : Meter) where
  -- The loop of `remove` over the specifications. The names that were removed are not forgotten
  -- between two of them.
  unfoldable pub remove_objects :
      List (ℕ × List Name)
      → List Name
      → PolicyRule P
      → List Request
      → Outcome (PolicyRule P) × List Request
  unfolding remove_names
  remove_objects [] return_keys rule sent = (ok rule, sent)
  remove_objects ((key, names) ∷ rest) return_keys rule sent =
      elim ((remove_names cfg meter names return_keys sent).0) [
        | thrown e ↦ (thrown e, (remove_names cfg meter names return_keys sent).1)
        | fault s ↦ (fault s, (remove_names cfg meter names return_keys sent).1)
        | ok removed ↦
            remove_objects rest removed (set_commands key removed rule)
              (remove_names cfg meter names return_keys sent).1
      ]

  -- remove
  unfoldable pub remove : PolicyRule P → List Request → Outcome (PolicyRule P) × List Request
  unfolding remove_objects
  remove rule sent = remove_objects rule.rule_keys [] (clear_commands (copy rule)) sent

-- remove_all
unfoldable pub remove_all : Config → Meter → List Request → Outcome Bool × List Request
unfolding execute_command
remove_all cfg meter sent = (
  all_removed (execute_command cfg meter (codes "/rm_task") everything sent).0,
  (execute_command cfg meter (codes "/rm_task") everything sent).1,
)
  where
    everything : Name
    everything = codes "RuleID=" ++ rule_group

    all_removed : Outcome (Unit {0}) → Outcome Bool
    all_removed (ok _) = ok true
    all_removed (thrown e) = ok false
    all_removed (fault s) = fault s

abbrev accepts : Outcome (Unit {0}) → Bool
accepts (ok _) = true
accepts _ = false

-- The installer as the dispatcher sees it, after the requests that were made so far. A check that
-- stops the program counts as one that fails.
abbrev pub netmate_installer :
    (P : Platform) → (P.Mspec → Option Message) → Config → Meter → List Request → Installer P
netmate_installer P message? cfg meter sent = record {
  check = λ x. accepts (check P message? cfg meter x);
  install = λ rule. (install P message? cfg meter rule sent).0;
  remove = λ rule. (remove cfg meter rule sent).0;
}
