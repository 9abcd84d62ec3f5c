-- ===== src/Ipfix/Import.antt =====
-- The templates of a message that is imported: src/msg/mnslp_ipfix_message.cpp.
pub mod Fields
pub mod Laws
use m_nslp.Prelude.{
  ℕ, zero, suc, ◌+◌, ◌-◌, ◌*◌, ◌/◌, ◌%◌, Bool, true, false, ◌&&◌, Option, none, some, List, [], ◌∷◌,
  ◌||◌, ltb, leb, ◌==◌, length, if◌then◌else◌,
}
use m_nslp.Ipfix.{FieldType}
use m_nslp.Ipfix.Template.{
  TemplateField, TemplateType, data_template, option_template, Template, get_numfields,
  add_data_field, add_scope_field, get_template, delete_template,
}
use m_nslp.Ipfix.Record.{two_bytes}
use m_nslp.Wire.Object.{drop}

-- What a function returns, or how it ends.
pub data Decoded (A : Type 0) : Type 0 where
  done : A → Decoded A
  -- mnslp_ipfix_bad_argument
  refused : Decoded A
  -- Memory outside the message is read, or the end of a map is erased.
  undefined : Decoded A

abbrev pub bind : {A B : Type 0} → Decoded A → (A → Decoded B) → Decoded B
bind (done a) f = f a
bind refused f = refused
bind undefined f = undefined

abbrev pub in_bounds : {A : Type 0} → Option A → Decoded A
in_bounds none = undefined
in_bounds (some a) = done a

-- READ16 and READ16_NOENCODE at an offset.
abbrev pub read16 : Bool → ℕ → List ℕ → Decoded ℕ
read16 high_first offset src = in_bounds (two_bytes high_first (drop offset src))

-- READ32 and READ32_NOENCODE at an offset.
abbrev pub read32 : Bool → ℕ → List ℕ → Decoded ℕ
read32 high_first offset src = bind (read16 high_first offset src) (λ a.
    bind (read16 high_first (offset + 2) src)
      (λ b. done (if high_first then a * 0x1_0000 + b else b * 0x1_0000 + a)))

-- get_field of the container of field types: the first with the enterprise number and type.
unfoldable pub find_type : ℕ → ℕ → List FieldType → Option FieldType
find_type eno ftype [] = none
find_type eno ftype (t ∷ rest) =
    let later = find_type eno ftype rest in
    if t.ftype == ftype && t.eno == eno then some t else later

-- The templates of a message, and the last template id that was given.
pub record Templates : Type 0 where
  pub entries : List (ℕ × Template)
  pub g_lasttid : ℕ

-- add_template: `insert` of a std::map, which keeps an entry that is there.
unfoldable pub add_template : ℕ → Template → List (ℕ × Template) → List (ℕ × Template)
add_template id t [] = (id, t) ∷ []
add_template id t ((k, u) ∷ rest) =
    let later = add_template id t rest in
    if ltb k id then (k, u) ∷ later else if ltb id k then (id, t) ∷ (k, u) ∷ rest else (k, u) ∷ rest

-- The template behind the pointer that the container has under an id.
unfoldable pub replace : ℕ → Template → List (ℕ × Template) → List (ℕ × Template)
replace id t [] = []
replace id t ((k, u) ∷ rest) =
    let later = replace id t rest in if k == id then (k, t) ∷ later else (k, u) ∷ later

abbrev pub fresh_template : TemplateType → ℕ → ℕ → Template
fresh_template type id nfields = record {
  type = type;
  tsend = 0;
  tid = id;
  maxfields = nfields;
  datafields = [];
  scopefields = [];
}

-- new_template, new_data_template and new_option_template: the id that is given next.
unfoldable pub new_template : TemplateType → ℕ → Templates → Decoded (ℕ × Templates)
unfolding add_template
new_template type nfields m =
    if ltb nfields 1
    then refused
    else done (
      (m.g_lasttid + 1) % 0x1_0000,
      record {
        entries =
            add_template ((m.g_lasttid + 1) % 0x1_0000)
              (fresh_template type ((m.g_lasttid + 1) % 0x1_0000) nfields) m.entries;
        g_lasttid = (m.g_lasttid + 1) % 0x1_0000;
      },
    )

-- The field that read_field adds: the field 0 of the table if there is none of the type.
abbrev pub known_or_not : Bool → ℕ → Option FieldType → Option FieldType → Decoded TemplateField
known_or_not relay flength (some t) zero_type =
    done (record { flength = flength; unknown_f = false; relay_f = relay; elem_type = t })
known_or_not relay flength none (some t) =
    done (record { flength = flength; unknown_f = true; relay_f = relay; elem_type = t })
known_or_not relay flength none none = refused

abbrev pub add_field : Bool → TemplateField → Template → Template
add_field true f t = add_scope_field f t
add_field false f t = add_data_field f t

module _ (types : List FieldType) (high_first relay : Bool) where
  -- The field of a type and a length, with the number of bytes that it took. The top bit of the type
  -- stands for a field of an enterprise, whose number follows.
  abbrev pub typed_field : Bool → Template → ℕ → List ℕ → ℕ → ℕ → Decoded (Template × ℕ)
  typed_field is_scope t buflen src ftype flength =
      if ltb ftype 0x8000
      then bind (known_or_not relay flength (find_type 0 ftype types) (find_type 0 0 types))
          (λ f. done (add_field is_scope f t, 4))
      else if ltb buflen 8
      then refused
      else bind (read32 high_first 4 src) (λ eno.
        bind
          (known_or_not relay flength (find_type eno (ftype - 0x8000) types) (find_type 0 0 types))
          (λ f. done (add_field is_scope f t, 8)))

  -- read_field
  unfoldable pub read_field : Bool → Template → ℕ → List ℕ → Decoded (Template × ℕ)
  read_field is_scope t buflen src =
      if ltb buflen 4
      then refused
      else if leb t.maxfields (get_numfields t)
      then refused
      else bind (read16 high_first 0 src) (λ ftype.
        bind (read16 high_first 2 src) (λ flength. typed_field is_scope t buflen src ftype flength))

  -- The loop over the fields of a template: `count` fields from field `i` on.
  unfoldable pub read_template_fields :
      ℕ → ℕ → ℕ → Template → ℕ → ℕ → List ℕ → Decoded (Template × ℕ)
  read_template_fields zero i nscope t offset len src = done (t, offset)
  read_template_fields (suc count) i nscope t offset len src =
      if leb len offset
      then refused
      else bind (read_field (ltb i nscope) t (len - offset) (drop offset src))
          (λ r. read_template_fields count (suc i) nscope r.0 (offset + r.1) len src)

-- The start of a template record.
pub record TemplateHeader : Type 0 where
  pub templid : ℕ
  pub nfields : ℕ
  pub nscopefields : ℕ
  pub offset : ℕ
  pub type : TemplateType

-- Options templates of version 9 give the lengths of the fields in bytes.
abbrev pub counted : ℕ → ℕ → ℕ → ℕ → Decoded TemplateHeader
counted len templid scopelen optionlen =
    if ltb (scopelen + optionlen) len
    then refused
    else done (record {
      templid = templid;
      nfields = (scopelen / 4 + optionlen / 4) % 0x1_0000;
      nscopefields = scopelen / 4;
      offset = 6;
      type = option_template;
    })

-- The switch over the set id in mnslp_ipfix_decode_trecord.
unfoldable pub read_template_header : Bool → ℕ → ℕ → List ℕ → Decoded TemplateHeader
read_template_header high_first setid len src =
    if setid == 3
    then (if ltb len 6
        then refused
        else bind (read16 high_first 0 src) (λ templid. bind (read16 high_first 2 src) (λ nfields.
          bind (read16 high_first 4 src) (λ nscopefields. done (record {
            templid = templid;
            nfields = nfields;
            nscopefields = nscopefields;
            offset = 6;
            type = option_template;
          })))))
    else if setid == 1
    then (if ltb len 6
        then refused
        else bind (read16 high_first 0 src) (λ templid. bind (read16 high_first 2 src) (λ scopelen.
          bind (read16 high_first 4 src) (λ optionlen. counted len templid scopelen optionlen))))
    else if setid == 2 || setid == 0
    then (if ltb len 4
        then refused
        else bind (read16 high_first 0 src) (λ templid. bind (read16 high_first 2 src) (λ nfields.
          done (record {
            templid = templid;
            nfields = nfields;
            nscopefields = 0;
            offset = 4;
            type = data_template;
          }))))
    else refused

-- A template without fields withdraws the one with its id, or all of them.
unfoldable pub withdraw : ℕ → TemplateHeader → Templates → Decoded Templates
withdraw setid h m =
    if h.nfields == 0
    then (if h.templid == setid
        then done (record m { entries = [] })
        else bind (in_bounds (delete_template h.templid m.entries))
            (λ rest. done (record m { entries = rest })))
    else done m

abbrev pub delete_found : ℕ → Templates → Option Template → Decoded Templates
delete_found templid m none = done m
delete_found templid m (some t) =
    bind (in_bounds (delete_template templid m.entries))
      (λ rest. done (record m { entries = rest }))

-- A template that is there under the id is deleted.
unfoldable pub delete_old : ℕ → Templates → Decoded Templates
delete_old templid m = delete_found templid m (get_template templid m.entries)

module _ (types : List FieldType) (high_first relay : Bool) where
  abbrev pub fill_found :
      TemplateHeader → ℕ → List ℕ → ℕ → Templates → Option Template → Decoded (Templates × ℕ)
  fill_found h len src id m none = refused
  fill_found h len src id m (some t) =
      bind
        (read_template_fields types high_first relay h.nfields 0 h.nscopefields
          (record t { tid = id; type = h.type; maxfields = h.nfields }) h.offset len src)
        (λ r. done (record m { entries = replace id r.0 m.entries }, r.1))

  -- The fields of the new template are read, and end up in the container.
  unfoldable pub fill_template :
      TemplateHeader → ℕ → List ℕ → ℕ × Templates → Decoded (Templates × ℕ)
  fill_template h len src (id, m) = fill_found h len src id m (get_template id m.entries)

  -- mnslp_ipfix_decode_trecord, with the number of bytes that it reads.
  unfoldable pub decode_trecord : ℕ → ℕ → List ℕ → Templates → Decoded (Templates × ℕ)
  decode_trecord setid len src m = bind (read_template_header high_first setid len src) (λ h.
      bind (withdraw setid h m) (λ left. bind (delete_old h.templid left) (λ rest.
        bind (new_template h.type h.nfields rest) (λ fresh. fill_template h len src fresh))))
