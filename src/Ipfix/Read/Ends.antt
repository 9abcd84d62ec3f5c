-- ===== src/Ipfix/Read/Ends.antt =====
-- The import of a message ends, but for the reading of data sets.
use m_nslp.Prelude.{
  ℕ, zero, suc, ◌+◌, ◌-◌, ◌*◌, ◌≤◌, ◌≡◌, ◌≢◌, refl, ◌⊎◌, inl, inr, Bool, Option, none, some, List,
  [], arith, ltb, length, Bool-cases,
}
use m_nslp.Wire.Object.{drop}
use m_nslp.Ipfix.{FieldType}
use m_nslp.Ipfix.Template.{Template, get_template}
use m_nslp.Ipfix.Record.{SetReading, read_set, set_throws, set_overrun, endless, read_data_set}
use m_nslp.Ipfix.Import.{done, read16, Templates}
use m_nslp.Ipfix.Header.{Header, Copied, copied, not_enough, overflow, copy_raw_message}
use m_nslp.Ipfix.Read.{
  Run, finished, run_refused, run_undefined, out_of_fuel, run, Progress, read_data, after_data,
  read_set_body, is_template_set, read_one_set, read_sets, at_end, numbers_high_first,
  finish_import, after_copy, first_set, parse_hdr, mnslp_ipfix_import,
}
use m_nslp.Ipfix.Read.Hanging.{
  Reached, begins, goes_on, HangsAt, HungSet, HasEndlessSet, template_set_ends, data_hangs,
  run-eq-out_of_fuel, once-eq-out_of_fuel,
}

module _ (types : List FieldType) (host network : Bool) where
  body_hangs :
      (fuel setid setlen : ℕ) (src : List ℕ) (p : Progress)
      → setlen ≤ fuel
      → read_set_body types host network fuel setid setlen src p ≡ out_of_fuel
      → HangsAt host network fuel src setid setlen p
  unfolding read_set_body
  body_hangs fuel setid setlen src p l e = elim (Bool-cases (is_template_set setid)) [
    | inl template ↦ elim (run-eq-out_of_fuel types host network _ _ (rw template at e)) [
      | inl never ↦ absurd (
          template_set_ends types host network fuel setid setlen (drop (p.nread) src) p.templates l
            never)
      | inr ended ↦ absurd (cc (ended.2))
    ]
    | inr other ↦ elim (Bool-cases (ltb 255 setid)) [
      | inl in_data ↦
          data_hangs types host network fuel setid setlen src p
            (get_template setid p.templates.entries) l refl (rw (other, in_data) at e)
      | inr skipped ↦ absurd (ground (arith, other, skipped, e))
    ]
  ]

  body_grows :
      (fuel setid setlen : ℕ) (src : List ℕ) (p q : Progress)
      → read_set_body types host network fuel setid setlen src p ≡ finished q
      → p.nread ≤ q.nread
  unfolding read_set_body
  body_grows fuel setid setlen src p q e = elim (Bool-cases (is_template_set setid)) [
    | inl template ↦ template_grows _ (rw template at e)
    | inr other ↦ elim (Bool-cases (ltb 255 setid)) [
      | inl in_data ↦ data_grows (get_template setid p.templates.entries) (rw (other, in_data) at e)
      | inr skipped ↦ ground (arith, other, skipped, e)
    ]
  ]
    where
      template_grows :
          (m : Run Templates)
          → run m (λ t. finished (record p { templates = t; nread = p.nread + setlen }))
            ≡ finished q
          → p.nread ≤ q.nread
      template_grows (finished t) h = ground (arith, h)
      template_grows run_refused h = absurd (ground (arith, h))
      template_grows run_undefined h = absurd (ground (arith, h))
      template_grows out_of_fuel h = absurd (ground (arith, h))

      after_grows : (s : SetReading) → after_data s p setlen ≡ finished q → p.nread ≤ q.nread
      after_grows (read_set records) h = ground (arith, h)
      after_grows set_throws h = absurd (ground (arith, h))
      after_grows set_overrun h = absurd (ground (arith, h))
      after_grows endless h = absurd (ground (arith, h))

      data_grows :
          (o : Option Template)
          → read_data types host network fuel setlen src p o ≡ finished q
          → p.nread ≤ q.nread
      data_grows none h = absurd (ground (arith, h))
      data_grows (some t) h =
          after_grows (read_data_set fuel host network t setlen (drop (p.nread) src) []) h

  -- What a round that does not end leaves behind: a data set, or a later round.
  set_hangs :
      (fuel : ℕ) (src : List ℕ) (go_on : Progress → Run Progress) (p : Progress)
      → length src ≤ fuel
      → read_one_set types host network fuel src go_on p ≡ out_of_fuel
      → HungSet host network fuel src p
        ⊎ ((q : Progress) × (p.nread + 4 ≤ q.nread)
            × (go_on q ≡ out_of_fuel)
            × (read_one_set types host network fuel src finished p ≡ finished q))
  unfolding read_one_set
  set_hangs fuel src go_on p l e =
      let (setid, read_id, e1) =
        once-eq-out_of_fuel types host network
          (read16 (numbers_high_first host network) p.nread src) _ e in
      let (setlen, read_len, e2) =
        once-eq-out_of_fuel types host network
          (read16 (numbers_high_first host network) (p.nread + 2) src) _ e1 in
      elim (Bool-cases (ltb setlen 4)) [
        | inl empty ↦ inr (
          record p { nread = p.nread + 4; last = some (setid, setlen) },
          omega arith,
          rw empty at e2,
          rw (read_id, read_len, empty) refl,
        )
        | inr whole ↦ elim (Bool-cases (ltb (length src - (p.nread + 4)) (setlen - 4))) [
          | inl short ↦ absurd (ground (arith, whole, short, e2))
          | inr fits ↦
              elim (run-eq-out_of_fuel types host network
                (read_set_body types host network fuel setid (setlen - 4) src
                  (record p { nread = p.nread + 4; last = some (setid, setlen - 4) }))
                go_on (rw (whole, fits) at e2)) [
                  | inl stuck ↦ inl (
                    setid,
                    setlen,
                    read_id,
                    read_len,
                    body_hangs fuel setid (setlen - 4) src
                        (record p { nread = p.nread + 4; last = some (setid, setlen - 4) })
                        (ground (arith, fits, l)) stuck,
                  )
                  | inr later ↦ inr (
                    later.0,
                    body_grows fuel setid (setlen - 4) src
                        (record p { nread = p.nread + 4; last = some (setid, setlen - 4) }) later.0
                        later.1,
                    later.2,
                    rw (read_id, read_len, whole, fits, later.1) refl,
                  )
                ]
        ]
      ]

  sets_hang :
      (rounds fuel version count i : ℕ) (src : List ℕ) (p : Progress)
      → length src ≤ fuel
      → length src ≤ p.nread + 4 * rounds
      → Reached types host network fuel version src p
      → read_sets types host network rounds fuel version count i src p ≡ out_of_fuel
      → HasEndlessSet types host network fuel version src
  unfolding read_sets
  sets_hang zero fuel version count i src p l r reached e = absurd (ground (arith, l, r, e))
  sets_hang (suc rounds) fuel version count i src p l r reached e =
      elim (Bool-cases (at_end version count i src p)) [
        | inl ends ↦ absurd (ground (arith, ends, e))
        | inr more ↦
            elim (set_hangs fuel src
              (λ q. read_sets types host network rounds fuel version count (suc i) src q) p l
              (rw more at e)) [
                | inl stuck ↦ (p, reached, stuck)
                | inr later ↦
                    sets_hang rounds fuel version count (suc i) src later.0 l
                      (omega (arith, later.1)) (goes_on p later.0 reached later.3) later.2
              ]
      ]

finish_import-ends :
    (types : List FieldType) (network : Bool) (src : List ℕ) (h : Header) (p : Progress)
    → finish_import types network src h p ≢ out_of_fuel
unfolding finish_import
finish_import-ends types network src h p = copy_ends (copy_raw_message src p.nread h)
  where
    copy_ends : (c : Copied) → after_copy types network p c ≢ out_of_fuel
    copy_ends (copied g) = λ e. cc e
    copy_ends not_enough = λ e. cc e
    copy_ends overflow = λ e. cc e

-- If the import of a message does not end with as much fuel as the message has bytes, then its
-- header could be read, and the loop over its sets comes to a data set that is not read to its
-- end, whose template was read from the message before, and the first field that get_field returns
-- for this template, if there is one, has length 0. The loops over the sets and over the records
-- of a template set always end.
pub import_hangs :
    (fuel : ℕ) (host network : Bool) (src : List ℕ)
    → length src ≤ fuel
    → mnslp_ipfix_import fuel host network src ≡ out_of_fuel
    → (h : Header × List FieldType) × (parse_hdr (numbers_high_first host network) src ≡ done h)
      × HasEndlessSet h.1 host network fuel h.0.version src
unfolding mnslp_ipfix_import
import_hangs fuel host network src l e = elim (Bool-cases (ltb (length src) 2)) [
  | inl short ↦ absurd (ground (arith, short, e))
  | inr whole ↦
      let (h, parsed, e1) =
        once-eq-out_of_fuel [] host network (parse_hdr (numbers_high_first host network) src) _
          (rw whole at e) in
      elim (run-eq-out_of_fuel [] host network
        (read_sets h.1 host network fuel fuel h.0.version h.0.count 0 src (first_set h.0.version)) _
        e1) [
          | inl stuck ↦ (
            h,
            parsed,
            sets_hang h.1 host network fuel fuel h.0.version h.0.count 0 src (first_set h.0.version)
                l (omega (arith, l)) (begins (first_set h.0.version) refl) stuck,
          )
          | inr later ↦ absurd (finish_import-ends h.1 network src h.0 later.0 later.2)
        ]
]
