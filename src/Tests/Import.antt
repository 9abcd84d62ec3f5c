-- ===== src/Tests/Import.antt =====
-- The import and the export of messages at concrete values.
use m_nslp.Prelude.{
  ℕ, ◌<◌, ◌≤◌, ◌+◌, ◌-◌, ◌≡◌, ◌↔◌, refl, inl, inr, ap, ◌∙◌, true, false, some, List, [], ◌∷◌, ◌++◌,
  arith, length,
}
use m_nslp.Ipfix.{FieldType, uint}
use m_nslp.Ipfix.Template.{Template, data_template, get_template}
use m_nslp.Ipfix.Import.{
  done, undefined, refused, Templates, find_type, decode_trecord, read_template_header, withdraw,
  delete_old, new_template, fresh_template, replace, fill_template, read_template_fields,
  read_field,
}
use m_nslp.Ipfix.Template.{add_data_field}
use m_nslp.Ipfix.Record.{read_data_set, endless}
use m_nslp.Ipfix.Record.Endless.{blank_template_never_ends}
use m_nslp.Wire.Object.{drop}
use m_nslp.Ipfix.Header.{Header, empty_header}
use m_nslp.Ipfix.Table.{entry, forward_first}
use m_nslp.Ipfix.Table.Finding.{standard_types, initialize-standard}
use m_nslp.Ipfix.Read.{
  finished, run_undefined, out_of_fuel, Progress, parse_hdr, read_sets, first_set, read_set_body,
  read_template_set, read_one_set, once, run, mnslp_ipfix_import, parse_ipfix, init,
}
use m_nslp.Ipfix.Read.Ends.{import_hangs}
use m_nslp.Ipfix.Read.Hanging.{HasEndlessSet}
use m_nslp.Ipfix.Write.{write_hdr, fields_bytes}
use m_nslp.Ipfix.Write.Fields.{template_fields_roundtrip}
use m_nslp.Ipfix.Write.Space.{export_space}
use m_nslp.Ipfix.Write.Reading.{header_roundtrip}
use m_nslp.Ipfix.Read.Copying.{IsKept, long_message_overflows}

-- The header of version 10, in network order.
abbrev pub ipfix_header : List ℕ
ipfix_header = 0 ∷ 10 ∷ 0 ∷ 33 ∷ 0 ∷ 0 ∷ 0 ∷ 1 ∷ 0 ∷ 0 ∷ 0 ∷ 2 ∷ 0 ∷ 0 ∷ 0 ∷ 3 ∷ []

-- A set with an id that is not used, and four bytes.
abbrev pub unknown_set : List ℕ
unknown_set = 0 ∷ 9 ∷ 0 ∷ 8 ∷ 1 ∷ 2 ∷ 3 ∷ 4 ∷ []

abbrev pub short_message : List ℕ
short_message = ipfix_header ++ unknown_set

abbrev pub parsed : Header × List FieldType
parsed =
    (record empty_header { sourceid = 3; length = 33; exporttime = 1; seqno = 2 }, standard_types)

pub parse_test : parse_hdr true short_message ≡ done parsed
unfolding parse_hdr parse_ipfix init
parse_test = rw initialize-standard refl

pub read_test :
    read_sets standard_types true true 24 24 10 0 0 short_message (first_set 10)
    ≡ finished (record (first_set 10) { nread = 24; last = some (9, 4) })
unfolding read_sets
read_test = refl

long_message_overflows_example :
    ((mnslp_ipfix_import 24 true true short_message ≡ run_undefined) ↔ (1400 < 24))
    × (24 ≤ 1400 → IsKept short_message 24 (mnslp_ipfix_import 24 true true short_message))
long_message_overflows_example =
    long_message_overflows 24 true true short_message parsed
      (record (first_set 10) { nread = 24; last = some (9, 4) }) (omega arith) parse_test read_test

-- A template with one field of length 0, and a data set of it with one byte.
abbrev blank_message : List ℕ
blank_message =
    ipfix_header
    ++ (0 ∷ 2 ∷ 0 ∷ 12 ∷ 1 ∷ 0 ∷ 0 ∷ 1 ∷ 0 ∷ 7 ∷ 0 ∷ 0 ∷ [])
    ++ (1 ∷ 0 ∷ 0 ∷ 5 ∷ 9 ∷ [])

blank_parsed :
    parse_hdr true blank_message
    ≡ done (
      record empty_header { version = 10; length = 33; exporttime = 1; seqno = 2; sourceid = 3 },
      standard_types,
    )
unfolding parse_hdr parse_ipfix init
blank_parsed = rw initialize-standard refl

abbrev no_templates : Templates
no_templates = record { entries = []; g_lasttid = 255 }

abbrev source_port : FieldType
source_port = entry 0 7 2 uint

blank_field : find_type 0 7 standard_types ≡ some source_port
unfolding find_type forward_first
blank_field = refl

abbrev blank_template : Template
blank_template = record (fresh_template data_template 256 1) {
  datafields =
      record { flength = 0; unknown_f = false; relay_f = true; elem_type = source_port } ∷ [];
}

blank_record :
    decode_trecord standard_types true true 2 8 (drop 20 blank_message) no_templates
    ≡ done (record { entries = (256, blank_template) ∷ []; g_lasttid = 256 }, 8)
unfolding decode_trecord read_template_header withdraw delete_old get_template new_template
    fill_template read_template_fields read_field add_data_field replace
blank_record = rw blank_field refl

blank_data : read_data_set 33 true true blank_template 1 (drop 32 blank_message) [] ≡ endless
blank_data =
    blank_template_never_ends true true blank_template 33 1 (9 ∷ []) [] refl
      ((refl, inr (inl refl)), tt) (omega arith)

abbrev before_template : Progress
before_template = record (first_set 10) { nread = 20; last = some (2, 8) }

abbrev after_template : Progress
after_template = record before_template {
  templates = record { entries = (256, blank_template) ∷ []; g_lasttid = 256 };
  nread = 28;
}

blank_body :
    read_set_body standard_types true true 33 2 8 blank_message before_template
    ≡ finished after_template
unfolding read_set_body read_template_set
blank_body = rw blank_record refl

data_body :
    read_set_body standard_types true true 33 256 1 blank_message
      (record after_template { nread = 32; last = some (256, 1) })
    ≡ out_of_fuel
unfolding read_set_body get_template
data_body = rw blank_data refl

data_set :
    read_sets standard_types true true 32 33 10 0 1 blank_message after_template ≡ out_of_fuel
unfolding read_sets read_one_set
data_set =
    ap (λ m. run m (λ q. read_sets standard_types true true 31 33 10 0 2 blank_message q)) data_body

blank_sets :
    read_sets standard_types true true 33 33 10 0 0 blank_message (first_set 10) ≡ out_of_fuel
unfolding read_sets read_one_set
blank_sets =
    ap (λ m. run m (λ q. read_sets standard_types true true 32 33 10 0 1 blank_message q))
      blank_body
    ∙ data_set

blank_test : mnslp_ipfix_import 33 true true blank_message ≡ out_of_fuel
unfolding mnslp_ipfix_import
blank_test = rw (blank_parsed, once, blank_sets) refl

import_hangs_example :
    (h : Header × List FieldType) × (parse_hdr true blank_message ≡ done h)
    × HasEndlessSet h.1 true true 33 h.0.version blank_message
import_hangs_example = import_hangs 33 true true blank_message (omega arith) blank_test

-- A message of 1390 bytes, and one of ten.
abbrev nearly_full : Header
nearly_full = record empty_header { offset = 1390; sourceid = 3 }

export_space_example :
    ((write_hdr true 5 1 nearly_full ≡ undefined)
      ↔ ((1400 < 16 + 1390) × (1390 + (16 + 1390 - 1400) ≤ 1400)))
    × ((write_hdr true 5 1 nearly_full ≡ refused) ↔ (1400 < 1390 + (16 + 1390 - 1400)))
export_space_example = export_space true 5 1 nearly_full

abbrev small : Header
small = record empty_header { offset = 2; buffer = 7 ∷ 8 ∷ []; sourceid = 3; nrecords = 4 }

header_roundtrip_example :
    (g : Header) × (write_hdr true 5 1 small ≡ done g)
    × (g.offset ≡ 18)
    × (parse_hdr true g.buffer
        ≡ done (
          record empty_header { sourceid = 3; length = g.length; exporttime = 5; seqno = 4 },
          standard_types,
        ))
header_roundtrip_example =
    header_roundtrip 5 1 small refl (omega arith) (omega arith) (omega arith) (omega arith)
      (omega arith)

-- A template of two fields, the second of which is one of an enterprise.
abbrev vendor_field : FieldType
vendor_field = record { eno = 29305; ftype = 7; length = 2; coding = uint }

abbrev two_fields : Template
two_fields = record (fresh_template data_template 300 2) {
  datafields =
      record { flength = 2; unknown_f = true; relay_f = false; elem_type = source_port }
      ∷ record { flength = 2; unknown_f = false; relay_f = false; elem_type = vendor_field }
      ∷ [];
}

template_fields_roundtrip_example :
    (bytes : List ℕ) × (fields_bytes true 2 0 two_fields ≡ done bytes)
    × (read_template_fields
          (source_port ∷ vendor_field ∷ [])
          true
          true
          2
          0
          0
          (fresh_template data_template 256 2)
          1
          (1 + length bytes)
          (9 ∷ (bytes ++ 8 ∷ []))
        ≡ done (
          record (fresh_template data_template 256 2) {
            datafields =
                record { flength = 2; unknown_f = false; relay_f = true; elem_type = source_port }
                ∷ record {
                  flength = 2;
                  unknown_f = false;
                  relay_f = true;
                  elem_type = vendor_field;
                }
                ∷ [];
          },
          1 + length bytes,
        ))
unfolding find_type
template_fields_roundtrip_example =
    template_fields_roundtrip (source_port ∷ vendor_field ∷ []) true two_fields
      (fresh_template data_template 256 2) (9 ∷ []) (8 ∷ []) refl
      (
        (omega arith, omega arith, omega arith, refl),
        ((omega arith, omega arith, omega arith, refl), tt),
      )
      refl refl (omega arith)
