-- ===== src/Ipfix/Record/Sets.antt =====
-- When the reading of a data set ends: src/msg/mnslp_ipfix_message.cpp.
use m_nslp.Prelude.{
  ℕ, zero, suc, ◌+◌, ◌-◌, ◌≤◌, ◌<◌, ◌≡◌, ◌≢◌, refl, subst, Bool, true, false, Option, none, some,
  List, [], ◌∷◌, ◌++◌, arith, ltb, ◌==◌, if◌then◌else◌, length,
}
use m_nslp.Ipfix.{Value, Result, value, bad_argument}
use m_nslp.Ipfix.Field.{FieldKey, decode}
use m_nslp.Ipfix.Template.{
  TemplateField, Template, get_numfields, get_field, Fetched, fetched, invalid_number, past_end,
}
use m_nslp.Ipfix.Record.{
  DataRecord, Reading, read_record, throws, overrun, field_length, high_first, take_value,
  take_field, read_field_at, read_fields, decode_datarecord, SetReading, endless, take_record,
  read_data_set, key_of, insert_field, two_bytes, read_prefix, long_prefix,
}
use m_nslp.Wire.Object.{take, drop}

-- A record that is read is read from at least `n` bytes.
abbrev AtLeast : ℕ → Reading → Type 0
AtLeast n (read_record r bytes) = n ≤ bytes
AtLeast n throws = Unit
AtLeast n overrun = Unit

AtLeast-mono : (m n : ℕ) (p : Reading) → m ≤ n → AtLeast n p → AtLeast m p
AtLeast-mono m n (read_record r bytes) l h = omega arith
AtLeast-mono m n throws l h = tt
AtLeast-mono m n overrun l h = tt

AtLeast-take_value :
    (n : ℕ) (k : FieldKey) (r : DataRecord) (go_on : DataRecord → Reading) (p : Result Value)
    → ((next : DataRecord) → AtLeast n (go_on next))
    → AtLeast n (take_value k r go_on p)
AtLeast-take_value n k r go_on bad_argument h = tt
AtLeast-take_value n k r go_on (value v) h = h (insert_field k v r)

-- The length and the prefix of a field together have the length that the template gives, at most 1.
abbrev Covers : ℕ → Option (ℕ × ℕ) → Type 0
Covers flength none = Unit
Covers flength (some (len, prefix)) = 0 < flength → 0 < prefix + len

Covers-long_prefix : (flength : ℕ) (o : Option ℕ) → Covers flength (long_prefix o)
Covers-long_prefix flength none = tt
Covers-long_prefix flength (some n) = λ h. omega arith

Covers-read_prefix :
    (high : Bool) (flength : ℕ) (src : List ℕ) → Covers flength (read_prefix high src)
Covers-read_prefix high flength [] = tt
Covers-read_prefix high flength (b ∷ rest) = cases (b == 255)
  where
    cases :
        (c : Bool) → Covers flength (if c then long_prefix (two_bytes high rest) else some (b, 1))
    cases true = Covers-long_prefix flength (two_bytes high rest)
    cases false = λ h. omega arith

Covers-field_length :
    (high : Bool) (flength : ℕ) (src : List ℕ) → Covers flength (field_length high flength src)
Covers-field_length high flength src = cases (flength == 65535)
  where
    cases : (c : Bool) → Covers flength (if c then read_prefix high src else some (flength, 0))
    cases true = Covers-read_prefix high flength src
    cases false = λ h. omega arith

no_first : (t : Template) (f : TemplateField) → get_numfields t ≡ 0 → get_field 0 t ≡ fetched f → ⊥
unfolding get_field
no_first t f z e = conflict (rw z at e)
  where
    conflict : invalid_number ≡ fetched f → ⊥
    conflict e = ground arith

module _ (host network : Bool) where
  -- A field of the length `flength` advances the count of bytes.
  AtLeast-take_field :
      (f : TemplateField) (m n left : ℕ) (src : List ℕ) (r : DataRecord)
      (go_on : ℕ → ℕ → List ℕ → DataRecord → Reading) (o : Option (ℕ × ℕ))
      → ((l len prefix : ℕ) (rest : List ℕ) (next : DataRecord)
          → o ≡ some (len, prefix)
          → AtLeast m (go_on l (n + prefix + len) rest next))
      → AtLeast m (take_field host network f left n src r go_on o)
  AtLeast-take_field f m n left src r go_on none h = tt
  AtLeast-take_field f m n left src r go_on (some (len, prefix)) h = first (ltb left len)
    where
      go : AtLeast m (
          take_value
            (key_of f.elem_type)
            r
            (λ next. go_on (left - len) (n + prefix + len) (drop len (drop prefix src)) next)
            (decode f.elem_type host network (take len (drop prefix src))))
      go =
          AtLeast-take_value m _ r _ _
            (λ next. h (left - len) len prefix (drop len (drop prefix src)) next refl)

      second :
          (b : Bool)
          → AtLeast m (
              if b
              then overrun
              else take_value
                  (key_of f.elem_type)
                  r
                  (λ next. go_on (left - len) (n + prefix + len) (drop len (drop prefix src)) next)
                  (decode f.elem_type host network (take len (drop prefix src))))
      second true = tt
      second false = go

      first :
          (b : Bool)
          → AtLeast m (
              if b
              then throws
              else if ltb (length (drop prefix src)) len
              then overrun
              else take_value
                  (key_of f.elem_type)
                  r
                  (λ next. go_on (left - len) (n + prefix + len) (drop len (drop prefix src)) next)
                  (decode f.elem_type host network (take len (drop prefix src))))
      first true = tt
      first false = second (ltb (length (drop prefix src)) len)

  -- Reading fields never takes the count back.
  AtLeast-read_fields :
      (t : Template) (count i left n : ℕ) (src : List ℕ) (r : DataRecord)
      → AtLeast n (read_fields host network t count i left n src r)
  unfolding read_fields
  AtLeast-read_fields t zero i left n src r = omega arith
  AtLeast-read_fields t (suc count) i left n src r =
      cases (get_field i t) (λ l k rest next. AtLeast-read_fields t count (suc i) l k rest next)
    where
      cases :
          (g : Fetched)
          → ((l k : ℕ) (rest : List ℕ) (next : DataRecord)
              → AtLeast k (read_fields host network t count (suc i) l k rest next))
          → AtLeast n (
              read_field_at host network left n src r
                (λ l k rest next. read_fields host network t count (suc i) l k rest next)
                g)
      cases invalid_number ih = tt
      cases past_end ih = tt
      cases (fetched f) ih =
          AtLeast-take_field f n n left src r
            (λ l k rest next. read_fields host network t count (suc i) l k rest next)
            (field_length (high_first host network) f.flength src)
            (λ l len prefix rest next e.
              AtLeast-mono n (n + prefix + len)
                (read_fields host network t count (suc i) l (n + prefix + len) rest next)
                (omega arith) (ih l (n + prefix + len) rest next))

  -- A record whose first field has a length reads at least one byte.
  AtLeast-first :
      (t : Template) (count left : ℕ) (src : List ℕ) (r : DataRecord) (f : TemplateField)
      → get_field 0 t ≡ fetched f
      → 0 < f.flength
      → AtLeast 1 (read_fields host network t (suc count) 0 left 0 src r)
  unfolding read_fields
  AtLeast-first t count left src r f e h = rw e (
      AtLeast-take_field f 1 0 left src r
        (λ l k rest next. read_fields host network t count 1 l k rest next)
        (field_length (high_first host network) f.flength src)
        (λ l len prefix rest next g.
          AtLeast-mono 1 (0 + prefix + len)
            (read_fields host network t count 1 l (0 + prefix + len) rest next)
            (omega (
              arith,
              subst (Covers f.flength) g
                  (Covers-field_length (high_first host network) f.flength src) h,
            ))
            (AtLeast-read_fields t count 1 l (0 + prefix + len) rest next)))

  AtLeast-decode_datarecord :
      (t : Template) (left : ℕ) (src : List ℕ) (f : TemplateField)
      → get_field 0 t ≡ fetched f
      → 0 < f.flength
      → AtLeast 1 (decode_datarecord host network t left src)
  unfolding decode_datarecord get_field
  AtLeast-decode_datarecord t left src f e h = cases (get_numfields t) refl
    where
      cases :
          (n : ℕ)
          → get_numfields t ≡ n
          → AtLeast 1 (
              read_fields host network t n 0 left 0 src
                (record { template_id = t.tid; field_data = [] }))
      cases zero z = absurd (no_first t f z e)
      cases (suc count) z = AtLeast-first t count left src _ f e h

  AtLeast-take_record :
      (p : Reading) (go_on : DataRecord → ℕ → SetReading)
      → AtLeast 1 p
      → ((r : DataRecord) (bytes : ℕ) → 0 < bytes → go_on r bytes ≢ endless)
      → take_record go_on p ≢ endless
  AtLeast-take_record (read_record r bytes) go_on h k = k r bytes (omega arith)
  AtLeast-take_record throws go_on h k = λ e. ground arith
  AtLeast-take_record overrun go_on h k = λ e. ground arith

  -- The reading of a data set ends, within as many rounds as the set has bytes, if get_field returns a
  -- first field for its template and that field has a length.
  pub data_set_ends :
      (t : Template) (f : TemplateField) (fuel left : ℕ) (src : List ℕ) (records : List DataRecord)
      → get_field 0 t ≡ fetched f
      → 0 < f.flength
      → left ≤ fuel
      → read_data_set fuel host network t left src records ≢ endless
  unfolding read_data_set
  data_set_ends t f fuel zero src records e h l = λ z. ground arith
  data_set_ends t f zero (suc left) src records e h l = absurd (omega arith)
  data_set_ends t f (suc fuel) (suc left) src records e h l =
      AtLeast-take_record (decode_datarecord host network t (suc left) src) _
        (AtLeast-decode_datarecord t (suc left) src f e h)
        (λ r bytes b.
          data_set_ends t f fuel (suc left - bytes) (drop bytes src) (records ++ r ∷ []) e h
            (omega arith))
