-- ===== src/Ipfix/Record/Endless.antt =====
-- Data sets whose records have no bytes: src/msg/mnslp_ipfix_message.cpp.
use m_nslp.Prelude.{
  ℕ, zero, suc, ◌+◌, ◌-◌, ◌<◌, ◌≡◌, inl, inr, refl, ap, Bool, true, false, List, [], ◌∷◌, ◌++◌,
  arith, ltb, length, ◌∙◌, All,
}
use m_nslp.Ipfix.{FieldType, unset, value}
use m_nslp.Ipfix.Field.{decode, decode_int}
use m_nslp.Ipfix.Field.RoundTrip.{IsNumber}
use m_nslp.Ipfix.Template.{TemplateField, Template, get_numfields, get_field, at_index, fetched}
use m_nslp.Ipfix.Template.Laws.{get_field_without_scope}
use m_nslp.Ipfix.Record.{
  DataRecord, Reading, read_record, field_length, high_first, take_field, read_fields,
  decode_datarecord, endless, read_data_set, key_of, insert_field,
}

-- A field of numbers to which the template gives the length 0.
abbrev pub IsBlank : TemplateField → Type 0
IsBlank f = (f.flength ≡ 0) × IsNumber f.elem_type.coding

minus_zero : (n : ℕ) → n - 0 ≡ n
minus_zero n = omega arith

plus_zeros : (n : ℕ) → n + 0 + 0 ≡ n
plus_zeros n = omega arith

not_below : (n : ℕ) → ltb n 0 ≡ false
not_below n = ground arith

decode_nothing :
    (t : FieldType) (host relay : Bool) → IsNumber t.coding → decode t host relay [] ≡ value unset
unfolding decode decode_int
decode_nothing t host relay (inl e) = rw e refl
decode_nothing t host relay (inr (inl e)) = rw e refl
decode_nothing t host relay (inr (inr e)) = rw e refl

-- The field at an index.
IsBlank-at_index :
    (i : ℕ) (fs : List TemplateField)
    → All IsBlank fs
    → i < length fs
    → (f : TemplateField) × (at_index i fs ≡ fetched f) × IsBlank f
IsBlank-at_index i [] h l = absurd (omega arith)
IsBlank-at_index zero (f ∷ fs) h l = (f, refl, h.0)
IsBlank-at_index (suc i) (f ∷ fs) h l = IsBlank-at_index i fs h.1 (omega arith)

IsBlank-get_field :
    (i : ℕ) (t : Template)
    → t.scopefields ≡ []
    → All IsBlank t.datafields
    → i < length t.datafields
    → (f : TemplateField) × (get_field i t ≡ fetched f) × IsBlank f
IsBlank-get_field i t s h l = found (IsBlank-at_index i t.datafields h l)
  where
    below : ltb i (length t.datafields) ≡ true
    below = ground arith

    found :
        ((f : TemplateField) × (at_index i t.datafields ≡ fetched f) × IsBlank f)
        → (f : TemplateField) × (get_field i t ≡ fetched f) × IsBlank f
    found (f, e, b) = (f, get_field_without_scope t i s ∙ rw below e, b)

module _ (host network : Bool) where
  take_blank :
      (f : TemplateField) (left n : ℕ) (src : List ℕ) (r : DataRecord)
      (go_on : ℕ → ℕ → List ℕ → DataRecord → Reading)
      → IsBlank f
      → take_field host network f left n src r go_on
          (field_length (high_first host network) f.flength src)
        ≡ go_on left n src (insert_field (key_of f.elem_type) unset r)
  take_blank f left n src r go_on b =
      rw
        (
          b.0,
          not_below left,
          not_below (length src),
          decode_nothing f.elem_type host network b.1,
          minus_zero left,
          plus_zeros n,
        )
        refl

  reads_nothing :
      (t : Template) (count i left n : ℕ) (src : List ℕ) (r : DataRecord)
      → t.scopefields ≡ []
      → All IsBlank t.datafields
      → i + count ≡ length t.datafields
      → (last : DataRecord) × (read_fields host network t count i left n src r ≡ read_record last n)
  unfolding read_fields
  reads_nothing t zero i left n src r s h l = (r, refl)
  reads_nothing t (suc count) i left n src r s h l =
      step (IsBlank-get_field i t s h (omega arith))
        (λ next. reads_nothing t count (suc i) left n src next s h (omega arith))
    where
      step :
          ((f : TemplateField) × (get_field i t ≡ fetched f) × IsBlank f)
          → ((next : DataRecord)
              → (last : DataRecord) × (read_fields host network t count (suc i) left n src next
                  ≡ read_record last n))
          → (last : DataRecord) × (read_fields host network t (suc count) i left n src r
              ≡ read_record last n)
      step (f, e, b) ih = (
        (ih (insert_field (key_of f.elem_type) unset r)).0,
        rw e (
            take_blank f left n src r
              (λ l k rest next. read_fields host network t count (suc i) l k rest next) b
            ∙ (ih (insert_field (key_of f.elem_type) unset r)).1),
      )

  empty_record :
      (t : Template) (left : ℕ) (src : List ℕ)
      → t.scopefields ≡ []
      → All IsBlank t.datafields
      → (last : DataRecord) × (decode_datarecord host network t left src ≡ read_record last 0)
  unfolding decode_datarecord
  empty_record t left src s h =
      reads_nothing t (get_numfields t) 0 left 0 src _ s h (rw s (omega arith))

  -- The reading of a data set with at least one byte never ends, on any number of rounds, if its
  -- template has no scope field and gives the length 0 to all of its data fields, which have
  -- codings of numbers.
  pub blank_template_never_ends :
      (t : Template) (fuel left : ℕ) (src : List ℕ) (records : List DataRecord)
      → t.scopefields ≡ []
      → All IsBlank t.datafields
      → 0 < left
      → read_data_set fuel host network t left src records ≡ endless
  unfolding read_data_set
  blank_template_never_ends t fuel zero src records s h l = absurd (omega arith)
  blank_template_never_ends t zero (suc left) src records s h l = refl
  blank_template_never_ends t (suc fuel) (suc left) src records s h l =
      step (empty_record t (suc left) src s h)
        (λ r. blank_template_never_ends t fuel (suc left) src (records ++ r ∷ []) s h l)
    where
      step :
          ((last : DataRecord) × (decode_datarecord host network t (suc left) src
              ≡ read_record last 0))
          → ((r : DataRecord)
              → read_data_set fuel host network t (suc left) src (records ++ r ∷ []) ≡ endless)
          → read_data_set (suc fuel) host network t (suc left) src records ≡ endless
      step (r, e) ih = rw e (
          ap (λ n. read_data_set fuel host network t n src (records ++ r ∷ []))
            (minus_zero (suc left))
          ∙ ih r)
