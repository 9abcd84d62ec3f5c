-- ===== src/Tests/Ipfix.antt =====
-- The laws of metering specifications at concrete values.
use m_nslp.Prelude.{ℕ, ◌≡◌, ◌≢◌, refl, true, false, inl, inr, List, [], ◌∷◌, arith}
use m_nslp.Ipfix.{FieldType, uint, string, int8, int16, value}
use m_nslp.Ipfix.Field.{FieldKey, decode, encode_int}
use m_nslp.Ipfix.Field.RoundTrip.{decode-encode_int}
use m_nslp.Ipfix.Template.{TemplateField, Template, data_template, get_field}
use m_nslp.Ipfix.Record.{DataRecord, read_data_set, endless}
use m_nslp.Ipfix.Import.{Templates, TemplateHeader}
use m_nslp.Ipfix.Record.Sets.{data_set_ends}
use m_nslp.Ipfix.Record.Endless.{blank_template_never_ends}

-- A port, a name and an unknown field.
abbrev port : FieldType
port = record { eno = 0; ftype = 7; length = 2; coding = uint }

abbrev name : FieldType
name = record { eno = 0; ftype = 82; length = 65535; coding = string }

abbrev known : TemplateField
known = record { flength = 2; unknown_f = false; relay_f = true; elem_type = port }

abbrev unknown : TemplateField
unknown = record { flength = 4; unknown_f = true; relay_f = true; elem_type = name }

abbrev empty_template : Template
empty_template = record {
  type = data_template;
  tsend = 0;
  tid = 256;
  maxfields = 2;
  datafields = [];
  scopefields = [];
}

abbrev ports : Template
ports = record empty_template { datafields = known ∷ unknown ∷ [] }

abbrev scoped : Template
scoped = record ports { scopefields = known ∷ [] }

decode-encode_int_example :
    decode port true false (encode_int true false (int16 8080)) ≡ value (int16 8080)
decode-encode_int_example =
    decode-encode_int port true false (int16 8080) (inr (inl refl)) (omega arith) refl

abbrev container : List (ℕ × Template)
container = (256, ports) ∷ (257, scoped) ∷ []

-- Two keys of the same weight, and a record with a value for the first.
abbrev old_key : FieldKey
old_key = record { eno = 0; ftype = 1000 }

abbrev new_key : FieldKey
new_key = record { eno = 1; ftype = 0 }

abbrev values : DataRecord
values = record { template_id = 256; field_data = (old_key, int8 5) ∷ [] }

data_set_ends_example : read_data_set 4 true true ports 4 (1 ∷ 2 ∷ 3 ∷ 4 ∷ []) [] ≢ endless
unfolding get_field
data_set_ends_example =
    data_set_ends true true ports known 4 4 (1 ∷ 2 ∷ 3 ∷ 4 ∷ []) [] refl (omega arith) (omega arith)

abbrev blank : TemplateField
blank = record known { flength = 0 }

abbrev blanks : Template
blanks = record empty_template { datafields = blank ∷ blank ∷ [] }

blank_template_never_ends_example : read_data_set 100 true true blanks 1 (1 ∷ []) [] ≡ endless
blank_template_never_ends_example =
    blank_template_never_ends true true blanks 100 1 (1 ∷ []) [] refl
      ((refl, inr (inl refl)), ((refl, inr (inl refl)), tt)) (omega arith)

-- A message with one template, and a record that says it is template 300.
abbrev templates : Templates
templates = record { entries = (256, ports) ∷ []; g_lasttid = 256 }

abbrev header : ℕ → TemplateHeader
header nfields = record {
  templid = 300;
  nfields = nfields;
  nscopefields = 0;
  offset = 4;
  type = data_template;
}

abbrev template_record : List ℕ
template_record = 1 ∷ 44 ∷ 0 ∷ 1 ∷ 0 ∷ 7 ∷ 0 ∷ 2 ∷ []

abbrev withdrawal : List ℕ
withdrawal = 1 ∷ 44 ∷ 0 ∷ 0 ∷ []
