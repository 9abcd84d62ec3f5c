-- ===== src/Tests/Netmate.antt =====
-- The installer for the netmate meter at concrete values.
use m_nslp.Prelude.{ℕ, ◌<◌, ◌≡◌, ◌↔◌, refl, ◌∙◌, true, false, Option, some, [], ◌∷◌, ◌++◌, arith}
use m_nslp.Node.{Node, remove_installed}
use m_nslp.Node.Monad.{Ctx, ok}
use m_nslp.Node.Removing.{after_removal}
use m_nslp.Rule.{Name, PolicyRule, get_number_mspec_objects}
use m_nslp.Rule.Laws.{IsRule}
use m_nslp.Wire.Object.{take}
use m_nslp.Ipfix.{FieldType, uint, int16}
use m_nslp.Ipfix.Template
use m_nslp.Ipfix.Template.{Template, TemplateField, data_template, option_template}
use m_nslp.Ipfix.Record.{DataRecord, get_value}
use m_nslp.Ipfix.Import.{find_type, done}
use m_nslp.Ipfix.Header.{empty_header}
use m_nslp.Ipfix.Message.{Message, get_field_data_values, include_all_data_fields}
use m_nslp.Ipfix.Print.{FloatText, print_value}
use m_nslp.Ipfix.Print.Digits.{number_of, pow10, print_value_lem}
use m_nslp.Ipfix.Table.{initialize, entry}
use m_nslp.Ipfix.Table.Finding.{standard_types, Holds, initialize_lem}
use m_nslp.Netmate.Names.{codes, decimal}
use m_nslp.Netmate.Field
use m_nslp.Netmate.Application
use m_nslp.Netmate.Action
use m_nslp.Netmate.Field.{ApplicationField, FieldMapping}
use m_nslp.Netmate.Action.{MeteringConfig, ActionMapping, PolicyAction}
use m_nslp.Netmate.Meter.{Config, Request, Answer, answered, transfer_failed, after_transfer}
use m_nslp.Netmate.Commands.{create_postfield_command, export_target, get_export_template}
use m_nslp.Netmate.Installer.{
  check_message, commands_of, get_ipfix_message, install, netmate_installer,
}
use m_nslp.Netmate.Installer.Removal.{NamesContent, failed_removal_unnoticed}
use m_nslp.Netmate.Installer.Installing.{always, kept_objects, kept_names, install_lem}
use m_nslp.Netmate.Installer.Complete.{Executes, IsReady, checked_rule_installed}
use m_nslp.Tests.{net, node, start}

abbrev no_floats : FloatText
no_floats size n = []

abbrev port : FieldType
port = entry 0 7 2 uint

abbrev octet_count : FieldType
octet_count = entry 0 1 8 uint

abbrev field_of : FieldType → TemplateField
field_of t = record { flength = t.length; unknown_f = false; relay_f = true; elem_type = t }

-- What is exported, and what is filtered.
abbrev counts : Template
counts = record {
  type = data_template;
  tsend = 0;
  tid = 256;
  maxfields = 1;
  datafields = field_of octet_count ∷ [];
  scopefields = [];
}

abbrev ports : Template
ports = record {
  type = option_template;
  tsend = 0;
  tid = 257;
  maxfields = 1;
  datafields = [];
  scopefields = field_of port ∷ [];
}

abbrev port_80 : DataRecord
port_80 = record { template_id = 257; field_data = (record { eno = 0; ftype = 7 }, int16 80) ∷ [] }

abbrev metered : Message
metered = record {
  message = some (record empty_header { templates = (256, counts) ∷ (257, ports) ∷ [] });
  g_ipfix_fields = octet_count ∷ port ∷ [];
  g_lasttid = 257;
  data_list = port_80 ∷ [];
  encode_network = true;
  require_output = false;
}

abbrev known_fields : FieldMapping
known_fields = record {
  metering_application = codes "netmate";
  fields =
      (
        record { eno = 0; ftype = 1 },
        record {
          is_configuration = false;
          is_filter = false;
          is_export = true;
          application_field_key = codes "octets";
        },
      )
      ∷ (
        record { eno = 0; ftype = 7 },
        record {
          is_configuration = false;
          is_filter = true;
          is_export = false;
          application_field_key = codes "srcport";
        },
      )
      ∷ [];
}

abbrev to_file : MeteringConfig
to_file = record {
  priority = 1;
  metering_procedure = codes "count";
  export_procedure = codes "file";
  export_directory = codes "/tmp/";
  export_report_interval = codes "1";
}

abbrev counting : PolicyAction
counting = record {
  action = codes "count";
  priority = 1;
  action_mappings =
      (codes "netmate", record { mapping = known_fields; meter_config = some to_file }) ∷ [];
}

abbrev cfg : Config
cfg = record {
  metering_application = codes "netmate";
  metering_server = codes "localhost";
  metering_port = 12244;
  user = codes "u";
  password = codes "p";
  export_directory = codes "/var/";
  app_container = some ((codes "netmate", known_fields) ∷ []);
  action_container = some ((codes "count", counting) ∷ []);
  float_text = no_floats;
}

abbrev the_command : Name
the_command = codes "Rule=NETMATE_IPFIX.k_1  -r srcport=80 -a count -e target=file:/tmp/k"

command_test :
    create_postfield_command cfg (codes "k") metered ≡ ok ((codes "k_1", the_command) ∷ [])
unfolding create_postfield_command Template.get_template_list Template.get_template
    Template.get_field Application.is_filter_field Field.is_filter_field get_field_data_values
    get_value Application.is_export_field Field.is_export_field Action.get_package
    Field.check_field_availability decimal Application.get_field_traslate Field.get_field_traslate
    export_target
command_test = refl

-- The key 1 of a rule is the byte 1.
command_1 :
    create_postfield_command cfg (1 ∷ []) metered
    ≡ ok (
        (
          1 ∷ codes "_1",
          codes "Rule=NETMATE_IPFIX."
              ++ 1 ∷ codes "_1  -r srcport=80 -a count -e target=file:/tmp/"
              ++ 1 ∷ [],
        )
        ∷ [])
unfolding create_postfield_command Template.get_template_list Template.get_template
    Template.get_field Application.is_filter_field Field.is_filter_field get_field_data_values
    get_value Application.is_export_field Field.is_export_field Action.get_package
    Field.check_field_availability decimal Application.get_field_traslate Field.get_field_traslate
    export_target
command_1 = refl

check_test : check_message cfg metered ≡ ok tt
unfolding check_message Template.get_template_list Template.get_template Template.get_field
    Application.is_export_field Field.is_export_field Action.check_field_availability
    Field.check_field_availability include_all_data_fields get_value
    Application.check_field_availability
check_test = refl

export_test : get_export_template metered ≡ ok (some counts)
unfolding get_export_template Template.get_template_list Template.get_template
export_test = refl

-- A meter that takes every command, and one that cannot be reached.
abbrev takes_all : Request → Answer
takes_all r = answered 200 (some (codes "text/html"))

abbrev unreachable : Request → Answer
unreachable r = transfer_failed

unreachable-NamesContent : NamesContent (always unreachable)
unreachable-NamesContent sent r code e = cc e

takes_all-NamesContent : NamesContent (always takes_all)
takes_all-NamesContent sent r code e = cc e

-- Every specification is that of port 80.
abbrev specification? : ℕ → Option Message
specification? x = some metered

abbrev one_key : PolicyRule net
one_key = record { objects = (1, 4) ∷ []; rule_keys = [] }

one_key-IsRule : IsRule one_key
one_key-IsRule = record { objects_sorted = tt; rule_keys_sorted = tt }

takes_all-Executes : Executes takes_all
unfolding after_transfer
takes_all-Executes r = refl

one_key-IsReady : IsReady net specification? cfg 1 4
one_key-IsReady = (metered, refl, check_test, counts, export_test, omega arith, _, command_1)

checked_rule_installed_example :
    (result : PolicyRule net) × ((install net specification? cfg (always takes_all) one_key []).0
      ≡ ok result)
    × (result.objects ≡ one_key.objects)
    × (get_number_mspec_objects result ≡ get_number_mspec_objects one_key)
checked_rule_installed_example =
    checked_rule_installed net specification? cfg takes_all ((refl, tt), tt) takes_all-Executes
      one_key [] one_key-IsRule (one_key-IsReady, tt)

one_key-commands :
    commands_of net specification? cfg (always unreachable) 1 4
    ≡ create_postfield_command cfg (1 ∷ []) metered
unfolding commands_of get_ipfix_message
one_key-commands = refl

install_lem_example :
    (install net specification? cfg (always unreachable) one_key []).0
    ≡ ok (record {
      objects = kept_objects net specification? cfg unreachable one_key.objects;
      rule_keys = kept_names net specification? cfg unreachable one_key.objects;
    })
install_lem_example =
    install_lem net specification? cfg unreachable one_key [] unreachable-NamesContent
      one_key-IsRule ((_, one_key-commands ∙ command_1), tt)

-- A rule of which one command was executed.
abbrev installed_rule : PolicyRule net
installed_rule = record { objects = (1, 4) ∷ []; rule_keys = (1, codes "k_1" ∷ []) ∷ [] }

installed_rule-IsRule : IsRule installed_rule
installed_rule-IsRule = record { objects_sorted = tt; rule_keys_sorted = tt }

abbrev metering_node : Node net
metering_node = record node {
  installer = netmate_installer net specification? cfg (always unreachable) [];
}

abbrev context : Ctx net ℕ
context = record { self = 0; world = start }

failed_removal_unnoticed_example :
    remove_installed metering_node installed_rule context
    ≡ (ok tt, record context { world = after_removal installed_rule start })
failed_removal_unnoticed_example =
    failed_removal_unnoticed net ℕ specification? cfg (always unreachable) [] metering_node
      installed_rule context unreachable-NamesContent installed_rule-IsRule refl

-- The port 8080 is printed as 80.
print_value_lem_example :
    (print_value no_floats port (int16 8080) ≡ some (take 2 (decimal 8080)))
    × ((number_of (take 2 (decimal 8080)) ≡ 8080) ↔ (8080 < pow10 2))
print_value_lem_example = print_value_lem no_floats port (int16 8080) tt refl refl

cut_port : take 2 (decimal 8080) ≡ codes "80"
unfolding decimal
cut_port = refl

initialize_lem_example :
    (initialize [] ≡ done standard_types)
    × ((find_type 0 7 standard_types ≡ some port)
        ↔ ((◌≡◌ {A = ℕ} 0 0) × (◌≡◌ {A = ℕ} 7 7) × Holds port standard_types))
initialize_lem_example = initialize_lem 0 7 port
