-- ===== src/Ipfix/Template/Laws.antt =====
-- What templates do with their fields: src/msg/mnslp_ipfix_template.cpp.
use m_nslp.Prelude.{
  ℕ, zero, suc, ◌+◌, ◌-◌, ◌<◌, ◌≤◌, ◌≡◌, refl, sym, ap, ◌∙◌, Bool, true, false, none, some, List,
  [], ◌∷◌, ◌++◌, arith, ltb, ◌==◌, length, length-append, if◌then◌else◌, All,
}
use mathlib.Core.List.{append-nil}
use m_nslp.Ipfix.Template.{
  TemplateField, TemplateType, data_template, option_template, Template, get_numfields,
  invalid_number, past_end, at_index, get_field, erase_unknown, remove_unknown_fields, field_eq,
  fields_eq, equals, copy, assign, same_type, same_bool,
}

at_index-past_end : (i : ℕ) (fs : List TemplateField) → length fs ≤ i → at_index i fs ≡ past_end
at_index-past_end i [] h = refl
at_index-past_end zero (f ∷ fs) h = absurd (omega arith)
at_index-past_end (suc i) (f ∷ fs) h = at_index-past_end i fs (omega arith)

-- In a template without scope fields, get_field returns the data fields by their index and
-- refuses every other index.
pub get_field_without_scope :
    (t : Template) (i : ℕ)
    → t.scopefields ≡ []
    → get_field i t
      ≡ (if ltb i (length t.datafields) then at_index i t.datafields else invalid_number)
unfolding get_field
get_field_without_scope t i h = rw h (ground arith)

-- In a template with scope fields and data fields, get_field of the last index reads past the end
-- of the data fields: the number of scope fields is not subtracted.
last_field_past_end :
    (t : Template)
    → 0 < length t.scopefields
    → 0 < length t.datafields
    → get_field (get_numfields t - 1) t ≡ past_end
unfolding get_field
last_field_past_end t h k = ground (arith, at_index-past_end (get_numfields t - 1) t.datafields)

abbrev pub Known : TemplateField → Type 0
Known f = f.unknown_f ≡ false

All-Known-keep :
    (b : Bool) (f : TemplateField) (fs : List TemplateField)
    → f.unknown_f ≡ b
    → All Known fs
    → All Known (if b then fs else f ∷ fs)
All-Known-keep true f fs e h = h
All-Known-keep false f fs e h = (e, h)

erase_unknown-Known : (fs : List TemplateField) → All Known (erase_unknown fs)
unfolding erase_unknown
erase_unknown-Known [] = tt
erase_unknown-Known (f ∷ fs) =
    All-Known-keep f.unknown_f f (erase_unknown fs) refl (erase_unknown-Known fs)

erase_unknown-same : (fs : List TemplateField) → All Known fs → erase_unknown fs ≡ fs
unfolding erase_unknown
erase_unknown-same [] h = refl
erase_unknown-same (f ∷ fs) h = rw (h.0, erase_unknown-same fs h.1) refl

erase_unknown-append :
    (fs gs : List TemplateField) → erase_unknown (fs ++ gs) ≡ erase_unknown fs ++ erase_unknown gs
unfolding erase_unknown
erase_unknown-append [] gs = refl
erase_unknown-append (f ∷ fs) gs = rw (erase_unknown-append fs gs) (cases f.unknown_f)
  where
    cases :
        (b : Bool)
        → (if b
            then erase_unknown fs ++ erase_unknown gs
            else f ∷ erase_unknown fs ++ erase_unknown gs)
          ≡ (if b then erase_unknown fs else f ∷ erase_unknown fs) ++ erase_unknown gs
    cases true = refl
    cases false = refl

-- remove_unknown_fields leaves no unknown field, changes nothing in a template without unknown fields,
-- and works on the two halves of the data fields one after the other, so it keeps every
-- known field, in its order.
remove_unknown_fields_lem :
    (t : Template) (fs gs : List TemplateField)
    → t.datafields ≡ fs ++ gs
    → All Known (remove_unknown_fields t).datafields
      × All Known (remove_unknown_fields t).scopefields
      × ((remove_unknown_fields t).datafields ≡ erase_unknown fs ++ erase_unknown gs)
      × (All Known t.datafields → All Known t.scopefields → remove_unknown_fields t ≡ t)
unfolding remove_unknown_fields
remove_unknown_fields_lem t fs gs e = (
  erase_unknown-Known t.datafields,
  erase_unknown-Known t.scopefields,
  ap erase_unknown e ∙ erase_unknown-append fs gs,
  λ h k. rw (erase_unknown-same t.datafields h, erase_unknown-same t.scopefields k) refl,
)

eq_self : (n : ℕ) → n == n ≡ true
eq_self n = ground arith

same_bool_self : (b : Bool) → same_bool b b ≡ true
same_bool_self true = refl
same_bool_self false = refl

same_type_self : (t : TemplateType) → same_type t t ≡ true
same_type_self data_template = refl
same_type_self option_template = refl

field_eq_self : (f : TemplateField) → field_eq f f ≡ true
field_eq_self f =
    rw
      (
        eq_self f.flength,
        same_bool_self f.unknown_f,
        same_bool_self f.relay_f,
        eq_self f.elem_type.eno,
        eq_self f.elem_type.ftype,
      )
      refl

fields_eq-append : (fs gs : List TemplateField) → fields_eq fs (fs ++ gs) ≡ some true
unfolding fields_eq
fields_eq-append [] gs = refl
fields_eq-append (f ∷ fs) gs = rw (fields_eq-append fs gs, field_eq_self f) refl

fields_eq-longer :
    (fs : List TemplateField) (g : TemplateField) (gs : List TemplateField)
    → fields_eq (fs ++ g ∷ gs) fs ≡ none
unfolding fields_eq
fields_eq-longer [] g gs = refl
fields_eq-longer (f ∷ fs) g gs = rw (fields_eq-longer fs g gs, field_eq_self f) refl

-- A template equals any template with the same type, id and maximum whose data and scope fields
-- begin with its own; compared with a template that lacks its last data fields, it reads past the
-- end of that template's vector.
equals_prefix :
    (t : Template) (data_more scope_more : List TemplateField) (f : TemplateField)
    → (equals t (record t {
      datafields = t.datafields ++ data_more;
      scopefields = t.scopefields ++ scope_more;
    })
        ≡ some true)
      × (equals (record t { datafields = t.datafields ++ f ∷ data_more }) t ≡ none)
unfolding equals
equals_prefix t data_more scope_more f = (
  rw
      (
        same_type_self t.type,
        eq_self t.tid,
        eq_self t.maxfields,
        fields_eq-append t.datafields data_more,
        fields_eq-append t.scopefields scope_more,
      )
      refl,
  rw
      (
        same_type_self t.type,
        eq_self t.tid,
        eq_self t.maxfields,
        fields_eq-longer t.datafields f data_more,
      )
      refl,
)

-- The copy of a template equals it, and assigning a template to one that has a field leaves more
-- fields than the assigned template has.
assign_lem :
    (t rhs : Template)
    → (equals rhs (copy rhs) ≡ some true)
      × (get_numfields (assign t rhs) ≡ get_numfields t + get_numfields rhs)
      × (0 < get_numfields t → get_numfields rhs < get_numfields (assign t rhs))
unfolding equals copy assign
assign_lem t rhs = (
  rw
      (
        same_type_self rhs.type,
        eq_self rhs.tid,
        eq_self rhs.maxfields,
        fields_eq_self rhs.datafields,
        fields_eq_self rhs.scopefields,
      )
      refl,
  counts,
  λ h. omega (arith, counts),
)
  where
    fields_eq_self : (fs : List TemplateField) → fields_eq fs fs ≡ some true
    fields_eq_self fs = ap (fields_eq fs) (sym (append-nil fs)) ∙ fields_eq-append fs []

    counts :
        length (t.datafields ++ rhs.datafields) + length (t.scopefields ++ rhs.scopefields)
        ≡ get_numfields t + get_numfields rhs
    counts = omega (
      arith,
      length-append t.datafields rhs.datafields,
      length-append t.scopefields rhs.scopefields,
    )
