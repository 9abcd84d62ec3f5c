-- ===== src/Ipfix/Read/Hanging.antt =====
-- What it means that the import of a message goes on for ever, and which of its loops cannot.
use m_nslp.Prelude.{
  ℕ, zero, suc, ◌+◌, ◌-◌, ◌≤◌, ◌≡◌, ◌≢◌, refl, subst, ◌⊎◌, inl, inr, Bool, Option, none, some, List,
  [], arith, ltb, Bool-cases,
}
use m_nslp.Wire.Object.{drop}
use m_nslp.Ipfix.{FieldType}
use m_nslp.Ipfix.Template.{TemplateField, Template, get_template, get_field, fetched}
use m_nslp.Ipfix.Record.Sets.{data_set_ends}
use m_nslp.Ipfix.Record.{SetReading, read_set, set_throws, set_overrun, endless, read_data_set}
use m_nslp.Ipfix.Import.{
  Decoded, done, refused, undefined, read16, Templates, TemplateHeader, decode_trecord,
  read_template_header,
}
use m_nslp.Ipfix.Import.Fields.{Holds}
use m_nslp.Ipfix.Import.Laws.{IsTaken, decode_trecord-IsTaken}
use m_nslp.Ipfix.Read.{
  Run, finished, run_refused, run_undefined, out_of_fuel, run, once, Progress, read_template_set,
  read_data, after_data, read_one_set, numbers_high_first, first_set,
}

-- Where the loop over the sets of a message comes to: to its first set, and from a set to the next.
pub data Reached (types : List FieldType) (host network : Bool) (fuel version : ℕ) (src : List ℕ)
    : Progress → Type 0 where
  begins : (p : Progress) → p ≡ first_set version → Reached types host network fuel version src p
  goes_on :
      (p q : Progress)
      → Reached types host network fuel version src p
      → read_one_set types host network fuel src finished p ≡ finished q
      → Reached types host network fuel version src q

-- A data set of `left` bytes at the position `p.nread`, with the template that the message has for it.
-- The set is not read to its end, and the first field of its template has no length.
abbrev pub HangsAt : Bool → Bool → ℕ → List ℕ → ℕ → ℕ → Progress → Type 0
HangsAt host network fuel src setid left p =
    (t : Template) × (get_template setid p.templates.entries ≡ some t)
    × ((f : TemplateField) → get_field 0 t ≡ fetched f → f.flength ≡ 0)
    × (read_data_set fuel host network t left (drop (p.nread) src) [] ≡ endless)

-- The set that begins at `p.nread` is such a data set, by its id and its length.
abbrev pub HungSet : Bool → Bool → ℕ → List ℕ → Progress → Type 0
HungSet host network fuel src p =
    (setid : ℕ) × (setlen : ℕ) × (read16 (numbers_high_first host network) p.nread src ≡ done setid)
    × (read16 (numbers_high_first host network) (p.nread + 2) src ≡ done setlen)
    × HangsAt host network fuel src setid (setlen - 4)
        (record p { nread = p.nread + 4; last = some (setid, setlen - 4) })

-- The message has such a data set, and the loop over its sets comes to it.
abbrev pub HasEndlessSet : List FieldType → Bool → Bool → ℕ → ℕ → List ℕ → Type 0
HasEndlessSet types host network fuel version src =
    (p : Progress) × Reached types host network fuel version src p × HungSet host network fuel src p

module _ (types : List FieldType) (host network : Bool) where
  Decoded-cases :
      {A : Type 0} (d : Decoded A) → ((a : A) × (d ≡ done a)) ⊎ ((d ≡ refused) ⊎ (d ≡ undefined))
  Decoded-cases (done a) = inl (a, refl)
  Decoded-cases refused = inr (inl refl)
  Decoded-cases undefined = inr (inr refl)

  taken_bytes :
      (setid len : ℕ) (src : List ℕ) (m : Templates) (r : Templates × ℕ)
      → decode_trecord types (numbers_high_first host network) network setid len src m ≡ done r
      → 4 ≤ r.1
  unfolding decode_trecord
  taken_bytes setid len src m r e =
      elim (Decoded-cases (read_template_header (numbers_high_first host network) setid len src)) [
        | inr failed ↦ elim failed [
          | inl x ↦ absurd (cc (rw x at e))
          | inr x ↦ absurd (cc (rw x at e))
        ]
        | inl header ↦ at_least header.0 (
            subst (Holds (IsTaken m len header.0)) e (
              decode_trecord-IsTaken types (numbers_high_first host network) network setid len src m
                header.0 header.1))
      ]
    where
      at_least : (h : TemplateHeader) → IsTaken m len h r → 4 ≤ r.1
      at_least h taken = omega (arith, taken.0, taken.3)

  template_set_step :
      (setid bytesleft fuel : ℕ) (src : List ℕ) (m : Templates) (d : Decoded (Templates × ℕ))
      (go_on : Templates × ℕ → Run Templates)
      → ((r : Templates × ℕ) → d ≡ done r → go_on r ≢ out_of_fuel)
      → once d go_on ≢ out_of_fuel
  template_set_step setid bytesleft fuel src m (done r) go_on h = h r refl
  template_set_step setid bytesleft fuel src m refused go_on h = λ e. cc e
  template_set_step setid bytesleft fuel src m undefined go_on h = λ e. cc e

  pub template_set_ends :
      (fuel setid bytesleft : ℕ) (src : List ℕ) (m : Templates)
      → bytesleft ≤ fuel
      → read_template_set types host network fuel setid bytesleft src m ≢ out_of_fuel
  unfolding read_template_set
  template_set_ends zero setid bytesleft src m h = λ e. ground (arith, h, e)
  template_set_ends (suc fuel) setid bytesleft src m h = elim (Bool-cases (ltb 4 bytesleft)) [
    | inr few ↦ λ e. ground (arith, few, e)
    | inl more ↦ rw more (
        template_set_step setid bytesleft fuel src m
          (decode_trecord types (numbers_high_first host network) network setid bytesleft src m) _
          (λ r e.
            template_set_ends fuel setid (bytesleft - r.1) (drop (r.1) src) r.0
              (ground (arith, more, taken_bytes setid bytesleft src m r e))))
  ]

  no_length :
      (t : Template) (fuel left : ℕ) (src : List ℕ) (f : TemplateField)
      → left ≤ fuel
      → read_data_set fuel host network t left src [] ≡ endless
      → get_field 0 t ≡ fetched f
      → f.flength ≡ 0
  no_length t fuel left src f l e g = cases f.flength refl
    where
      cases : (n : ℕ) → f.flength ≡ n → n ≡ 0
      cases zero z = refl
      cases (suc n) z = absurd (data_set_ends host network t f fuel left src [] g (omega arith) l e)

  pub data_hangs :
      (fuel setid setlen : ℕ) (src : List ℕ) (p : Progress) (o : Option Template)
      → setlen ≤ fuel
      → get_template setid p.templates.entries ≡ o
      → read_data types host network fuel setlen src p o ≡ out_of_fuel
      → HangsAt host network fuel src setid setlen p
  data_hangs fuel setid setlen src p none l g e = cc e
  data_hangs fuel setid setlen src p (some t) l g e =
      let stuck =
        reading_hangs (read_data_set fuel host network t setlen (drop (p.nread) src) []) e in
      (t, g, (λ f h. no_length t fuel setlen (drop (p.nread) src) f l stuck h), stuck)
    where
      reading_hangs : (s : SetReading) → after_data s p setlen ≡ out_of_fuel → s ≡ endless
      reading_hangs (read_set records) e = cc e
      reading_hangs set_throws e = cc e
      reading_hangs set_overrun e = cc e
      reading_hangs endless e = refl

  pub run-eq-out_of_fuel :
      {A B : Type 0} (m : Run A) (f : A → Run B)
      → run m f ≡ out_of_fuel
      → (m ≡ out_of_fuel) ⊎ ((a : A) × (m ≡ finished a) × (f a ≡ out_of_fuel))
  run-eq-out_of_fuel (finished a) f e = inr (a, refl, e)
  run-eq-out_of_fuel run_refused f e = cc e
  run-eq-out_of_fuel run_undefined f e = cc e
  run-eq-out_of_fuel out_of_fuel f e = inl refl

  pub once-eq-out_of_fuel :
      {A B : Type 0} (m : Decoded A) (f : A → Run B)
      → once m f ≡ out_of_fuel
      → (a : A) × (m ≡ done a) × (f a ≡ out_of_fuel)
  once-eq-out_of_fuel (done a) f e = (a, refl, e)
  once-eq-out_of_fuel refused f e = cc e
  once-eq-out_of_fuel undefined f e = cc e
