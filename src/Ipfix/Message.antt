-- ===== src/Ipfix/Message.antt =====
-- The templates and data records of a message, as its users build and read them:
-- src/msg/mnslp_ipfix_message.cpp. What a message keeps for its output is left out.
use m_nslp.Prelude.{
  ℕ, zero, suc, Bool, true, false, not, ◌&&◌, Option, none, some, List, [], ◌∷◌, ◌++◌, ltb, ◌==◌,
  length, if◌then◌else◌,
}
use m_nslp.Rule.{Name}
use m_nslp.Ipfix.{FieldType, Result, value, bad_argument}
use m_nslp.Ipfix.Template.{
  TemplateField, TemplateType, data_template, option_template, Template, get_numfields, get_field,
  fetched, invalid_number, past_end, add_data_field,
}
use m_nslp.Ipfix.Template
use m_nslp.Ipfix.Record.{DataRecord, key_of, get_value, get_num_fields}
use m_nslp.Ipfix.Record
use m_nslp.Ipfix.Import.{Decoded, done, refused, undefined, bind, find_type, new_template, replace}
use m_nslp.Ipfix.Header.{Header}
use m_nslp.Ipfix.Header
use m_nslp.Ipfix.Print.{FloatText, print_value}

-- mnslp_ipfix_message. There is no ipfix_t before `init`.
pub record Message : Type 0 where
  pub message : Option Header
  pub g_ipfix_fields : List FieldType
  pub g_lasttid : ℕ
  pub data_list : List DataRecord
  pub encode_network : Bool
  pub require_output : Bool

-- get_num_templates
unfoldable pub get_num_templates : Message → ℕ
get_num_templates m = elim (m.message) [ none ↦ 0 | some h ↦ length h.templates ]

-- get_template_list
unfoldable pub get_template_list : Message → List ℕ
get_template_list m = elim (m.message) [
  | none ↦ []
  | some h ↦ Template.get_template_list h.templates
]

-- A template, where the container throws mnslp_ipfix_bad_argument if there is none.
abbrev pub template_in : ℕ → List (ℕ × Template) → Decoded Template
template_in templid c = found (Template.get_template templid c)
  where
    found : Option Template → Decoded Template
    found none = refused
    found (some t) = done t

-- get_template, which returns NULL for a message without an ipfix_t.
unfoldable pub get_template : ℕ → Message → Decoded (Option Template)
get_template templid m = elim (m.message) [
  | none ↦ done none
  | some h ↦ bind (template_in templid h.templates) (λ t. done (some t))
]

-- The vendor bit of a field type: IPFIX_EFT_VENDOR_BIT.
abbrev pub vendor_bit : ℕ
vendor_bit = 0x8000

abbrev pub known_type : ℕ → ℕ → List FieldType → Decoded FieldType
known_type eno ftype types = found (find_type eno ftype types)
  where
    found : Option FieldType → Decoded FieldType
    found none = refused
    found (some t) = done t

abbrev pub same_template_type : TemplateType → TemplateType → Bool
same_template_type data_template data_template = true
same_template_type option_template option_template = true
same_template_type _ _ = false

-- The message after a field was added to the template under an id.
abbrev pub with_field : ℕ → Header → Template → Message → Message
with_field templid h t m = record m {
  message = some (record h { templates = replace templid t h.templates });
  require_output = true;
}

-- add_field: `undefined` stands for the null pointer of a message without an ipfix_t.
unfoldable pub add_field : ℕ → ℕ → ℕ → ℕ → Message → Decoded Message
unfolding find_type
add_field templid eno ftype flength m = elim (m.message) [
  | none ↦ undefined
  | some h ↦ bind (template_in templid h.templates) (λ t.
      if ltb (get_numfields t) t.maxfields && ltb ftype vendor_bit
      then bind (known_type eno ftype m.g_ipfix_fields) (λ field. done (
          with_field templid h
            (add_data_field
              (record {
                flength = flength;
                unknown_f = false;
                relay_f = m.encode_network;
                elem_type = field;
              })
              t)
            m))
      else refused)
]

-- add_scope_field
unfoldable pub add_scope_field : ℕ → ℕ → ℕ → ℕ → Message → Decoded Message
unfolding find_type
add_scope_field templid eno ftype flength m = elim (m.message) [
  | none ↦ undefined
  | some h ↦ bind (template_in templid h.templates) (λ t.
      if not (same_template_type t.type option_template)
      then refused
      else if ltb (get_numfields t) t.maxfields
      then bind (known_type eno ftype m.g_ipfix_fields) (λ field. done (
          with_field templid h
            (Template.add_scope_field
              (record {
                flength = flength;
                unknown_f = false;
                relay_f = m.encode_network;
                elem_type = field;
              })
              t)
            m))
      else refused)
]

-- include_data
unfoldable pub include_data : ℕ → DataRecord → Message → Decoded Message
include_data templid r m = elim (m.message) [
  | none ↦ undefined
  | some h ↦ bind (template_in templid h.templates) (λ t.
      if get_numfields t == get_num_fields r
      then done (record m { data_list = m.data_list ++ r ∷ []; require_output = true })
      else refused)
]

-- delete_template
unfoldable pub delete_template : ℕ → Message → Decoded Message
delete_template templid m = elim (m.message) [
  | none ↦ undefined
  | some h ↦ elim (Template.delete_template templid h.templates) [
    | none ↦ undefined
    | some rest ↦
        done (record m { message = some (record h { templates = rest }); require_output = true })
  ]
]

-- new_data_template
unfoldable pub new_data_template : ℕ → Message → Decoded (ℕ × Message)
new_data_template nfields m = elim (m.message) [
  | none ↦ undefined
  | some h ↦
      bind
        (new_template data_template nfields
          (record { entries = h.templates; g_lasttid = m.g_lasttid }))
        (λ r. done (
          r.0,
          record m {
            message = some (record h { templates = r.1.entries });
            g_lasttid = r.1.g_lasttid;
            require_output = true;
          },
        ))
]

-- export_fields_t
pub record ExportField : Type 0 where
  pub eno : ℕ
  pub ienum : ℕ
  pub length : ℕ

-- The loop of make_template.
unfoldable pub add_fields : ℕ → List ExportField → Message → Decoded Message
unfolding add_field
add_fields templid [] m = done m
add_fields templid (f ∷ fs) m =
    bind (add_field templid f.eno f.ienum f.length m) (add_fields templid fs)

-- make_template. After a field that cannot be added the new template is deleted, and `refused`
-- stands for the exception that is thrown then.
unfoldable pub make_template : List ExportField → Message → Decoded (ℕ × Message)
unfolding new_data_template add_fields
make_template fields m = bind (new_data_template (length fields) m) (λ r.
    bind (add_fields r.0 fields r.1)
      (λ filled. done (r.0, record filled { require_output = true })))

-- A field that get_field returns; `refused` is an exception, `undefined` a read past the end.
abbrev pub field_at : ℕ → Template → Decoded TemplateField
field_at i t = elim (get_field i t) [
  | fetched f ↦ done f
  | invalid_number ↦ refused
  | past_end ↦ undefined
]

-- The inner loop of include_all_data_fields for `count` fields from field `i` on; an exception of
-- a data record or a template is caught.
unfoldable pub has_fields : ℕ → ℕ → Template → DataRecord → Decoded Bool
has_fields zero i t r = done true
has_fields (suc count) i t r = elim (field_at i t) [
  | undefined ↦ undefined
  | refused ↦ done false
  | done f ↦ elim (get_value (key_of f.elem_type) r) [
    | bad_argument ↦ done false
    | value v ↦ has_fields count (suc i) t r
  ]
]

abbrev and_then : Decoded Bool → Decoded Bool → Decoded Bool
and_then (done true) later = later
and_then (done false) later = done false
and_then refused later = refused
and_then undefined later = undefined

-- The loop over the data records, with `val_return`.
unfoldable pub records_cover : List DataRecord → Template → Bool → Decoded Bool
unfolding has_fields
records_cover [] t val_return = done val_return
records_cover (r ∷ rest) t val_return =
    let next = records_cover rest t true in
    let other = records_cover rest t val_return in
    if r.template_id == t.tid
    then (if get_num_fields r == get_numfields t
        then and_then (has_fields (get_numfields t) 0 t r) next
        else done false)
    else other

-- include_all_data_fields
unfoldable pub include_all_data_fields : Template → Message → Decoded Bool
unfolding records_cover
include_all_data_fields t m = records_cover m.data_list t false

abbrev printed : Option Name → Decoded Name
printed none = undefined
printed (some text) = done text

-- The loop of get_field_data_values: the texts of a field in the data records of a template.
unfoldable pub record_values :
    FloatText → List DataRecord → Template → FieldType → Decoded (List Name)
unfolding print_value
record_values float_text [] t field = done []
record_values float_text (r ∷ rest) t field =
    let later = record_values float_text rest t field in
    if r.template_id == t.tid
    then elim (get_value (key_of field) r) [
      | bad_argument ↦ refused
      | value v ↦
          bind (printed (print_value float_text field v))
            (λ text. bind later (λ texts. done (text ∷ texts)))
    ]
    else later

-- get_field_data_values
unfoldable pub get_field_data_values :
    FloatText → Template → FieldType → Message → Decoded (List Name)
unfolding record_values
get_field_data_values float_text t field m = record_values float_text m.data_list t field

abbrev different : Result Bool → Option Bool → Option Bool
different bad_argument later = none
different (value true) later = later
different (value false) later = some false

-- The loop of isEqual over the data records of the left side. `none` stands for an exception of a
-- record, which is not caught, or for a record past the end of the right side.
unfoldable pub records_eq : List DataRecord → List DataRecord → Option Bool
records_eq [] rhs = some true
records_eq (r ∷ rest) [] = none
records_eq (r ∷ rest) (s ∷ more) = different (Record.equals r s) (records_eq rest more)

abbrev same_header : Option Bool → Option Bool → Option Bool
same_header none records = none
same_header (some true) records = records
same_header (some false) records = some false

-- isEqual
unfoldable pub is_equal : Message → Message → Option Bool
unfolding records_eq
is_equal m rhs = elim (m.message) [
  | none ↦ elim (rhs.message) [ none ↦ some true | some d ↦ some false ]
  | some c ↦ elim (rhs.message) [
    | none ↦ some false
    | some d ↦ same_header (Header.equals d c) (records_eq m.data_list rhs.data_list)
  ]
]

-- The copy of the ipfix_t of the other message, if it has one.
abbrev copied_or : Option Header → Option Header → Option Header
copied_or old none = old
copied_or old (some h) = some (Header.copy h)

-- operator=
unfoldable pub assign : Message → Message → Message
assign m other = record other { message = copied_or m.message other.message; require_output = true }

-- The copy constructor.
unfoldable pub copy : Message → Message
copy other = record other { message = copied_or none other.message }
