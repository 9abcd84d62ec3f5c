-- ===== src/Ipfix/Import/Laws.antt =====
-- What importing a template does: src/msg/mnslp_ipfix_message.cpp.
use m_nslp.Prelude.{
  ℕ, ◌+◌, ◌*◌, ◌%◌, ◌≤◌, ◌<◌, ◌≡◌, refl, ap, subst, Bool, true, false, Option, none, some, List, [],
  ◌∷◌, arith, ltb, ◌==◌, if◌then◌else◌, ◌∙◌,
}
use m_nslp.Ipfix.{FieldType}
use m_nslp.Ipfix.Template.{Template, TemplateType, delete_template, get_template}
use m_nslp.Ipfix.Import.{
  Decoded, done, refused, undefined, bind, in_bounds, Templates, TemplateHeader,
  read_template_header, withdraw, delete_old, delete_found, fill_found, new_template, replace,
  fill_template, decode_trecord,
}
use m_nslp.Ipfix.Import.Fields.{
  Holds, IsRejected, Holds-bind, Holds-unless, not_less, Covers, Covers-read_template_fields,
}

new_template_zero :
    (type : TemplateType) (m : Templates) (n : ℕ) → n ≡ 0 → new_template type n m ≡ refused
unfolding new_template
new_template_zero type m n e = rw e refl

get_template-replace :
    (id : ℕ) (t u : Template) (entries : List (ℕ × Template))
    → get_template id entries ≡ some t
    → get_template id (replace id u entries) ≡ some u
unfolding get_template replace
get_template-replace id t u [] h = cc
get_template-replace id t u ((k, v) ∷ rest) h = ground (arith, get_template-replace id t u rest)

-- The id that is given next.
abbrev pub next_tid : Templates → ℕ
next_tid m = (m.g_lasttid + 1) % 0x1_0000

-- A template has what the start of its record says, under an id.
abbrev pub Describes : TemplateHeader → ℕ → Template → Type 0
Describes h id t = (t.tid ≡ id) × (t.type ≡ h.type) × (t.maxfields ≡ h.nfields)

-- What is promised of an accepted template record.
abbrev pub IsTaken : Templates → ℕ → TemplateHeader → Templates × ℕ → Type 0
IsTaken m len h r =
    (0 < h.nfields)
    × (r.0.g_lasttid ≡ next_tid m)
    × ((t : Template) × (get_template (next_tid m) r.0.entries ≡ some t)
        × Describes h (next_tid m) t)
    × (h.offset + 4 * h.nfields ≤ r.1)
    × (h.offset ≤ len → r.1 ≤ len)

abbrev Keeps : Templates → Templates → Type 0
Keeps m n = n.g_lasttid ≡ m.g_lasttid

abbrev Given : Templates → ℕ → ℕ × Templates → Type 0
Given m nfields r = (0 < nfields) × (r.1.g_lasttid ≡ next_tid m) × (r.0 ≡ next_tid m)

module _ (types : List FieldType) (high_first relay : Bool) where
  -- A template record that says that it has no fields, which is how a template is withdrawn, is never
  -- accepted: the template is deleted, and then a new one without fields is asked for, which
  -- throws, unless the end of the container was erased before.
  withdrawal-IsRejected :
      (setid len : ℕ) (src : List ℕ) (m : Templates) (h : TemplateHeader)
      → read_template_header high_first setid len src ≡ done h
      → h.nfields ≡ 0
      → IsRejected (decode_trecord types high_first relay setid len src m)
  unfolding decode_trecord
  withdrawal-IsRejected setid len src m h e z = rw e (
      Holds-bind (λ a. ⊥) (withdraw setid h m) _
        (λ left w.
          Holds-bind (λ a. ⊥) (delete_old h.templid left) _
            (λ rest d. rw (new_template_zero h.type rest h.nfields z) tt)))

  Keeps-withdraw :
      (setid : ℕ) (h : TemplateHeader) (m : Templates) → Holds (Keeps m) (withdraw setid h m)
  unfolding withdraw
  Keeps-withdraw setid h m =
      cases (h.nfields == 0) (h.templid == setid) (in_bounds (delete_template h.templid m.entries))
    where
      cases :
          (b c : Bool) (p : Decoded (List (ℕ × Template)))
          → Holds (Keeps m) (
              if b
              then (if c
                  then done (record m { entries = [] })
                  else bind p (λ rest. done (record m { entries = rest })))
              else done m)
      cases true true p = refl
      cases true false (done rest) = refl
      cases true false refused = tt
      cases true false undefined = tt
      cases false c p = refl

  Keeps-delete_old : (templid : ℕ) (m : Templates) → Holds (Keeps m) (delete_old templid m)
  unfolding delete_old
  Keeps-delete_old templid m = cases (get_template templid m.entries)
    where
      then_done :
          (p : Decoded (List (ℕ × Template)))
          → Holds (Keeps m) (bind p (λ rest. done (record m { entries = rest })))
      then_done (done rest) = refl
      then_done refused = tt
      then_done undefined = tt

      cases : (o : Option Template) → Holds (Keeps m) (delete_found templid m o)
      cases none = refl
      cases (some t) = then_done (in_bounds (delete_template templid m.entries))

  Holds-after :
      {A B : Type 0} (R : A → Type 0) (Q : B → Type 0) (p : Decoded A) (f : A → Decoded B)
      → Holds R p
      → ((a : A) → R a → Holds Q (f a))
      → Holds Q (bind p f)
  Holds-after R Q (done a) f h k = k a h
  Holds-after R Q refused f h k = tt
  Holds-after R Q undefined f h k = tt

  IsTaken-fill_found :
      (m n : Templates) (h : TemplateHeader) (len id : ℕ) (src : List ℕ) (o : Option Template)
      → 0 < h.nfields
      → n.g_lasttid ≡ next_tid m
      → id ≡ next_tid m
      → get_template id n.entries ≡ o
      → Holds (IsTaken m len h) (fill_found types high_first relay h len src id n o)
  IsTaken-fill_found m n h len id src none l e same g = tt
  IsTaken-fill_found m n h len id src (some t) l e same g =
      Holds-after
        (Covers (record t { tid = id; type = h.type; maxfields = h.nfields }) h.nfields h.offset
          len)
        (IsTaken m len h) _ _
        (Covers-read_template_fields types high_first relay h.nfields 0 h.nscopefields
          (record t { tid = id; type = h.type; maxfields = h.nfields }) h.offset len src)
        (λ r c. (
          l,
          e,
          (
            r.0,
            subst (λ k. get_template k (replace id r.0 n.entries) ≡ some r.0) same
                (get_template-replace id t r.0 n.entries g),
            (c.2.0 ∙ same, c.2.1, c.2.2),
          ),
          c.0,
          c.1,
        ))

  Given-new_template :
      (type : TemplateType) (k : ℕ) (m : Templates) → Holds (Given m k) (new_template type k m)
  unfolding new_template
  Given-new_template type k m =
      Holds-unless (Given m k) (ltb k 1) _ (λ l. (not_less k 1 l, refl, refl))

  IsTaken-new_template :
      (m n : Templates) (h : TemplateHeader) (len : ℕ) (src : List ℕ)
      → Keeps m n
      → Holds (IsTaken m len h) (
          bind
            (new_template h.type h.nfields n)
            (λ fresh. fill_template types high_first relay h len src fresh))
  unfolding fill_template
  IsTaken-new_template m n h len src e =
      Holds-after (Given n h.nfields) (IsTaken m len h) (new_template h.type h.nfields n) _
        (Given-new_template h.type h.nfields n)
        (λ fresh g.
          IsTaken-fill_found m fresh.1 h len fresh.0 src (get_template fresh.0 fresh.1.entries) g.0
            (g.1 ∙ ap (λ k. (k + 1) % 0x1_0000) e) (g.2 ∙ ap (λ k. (k + 1) % 0x1_0000) e) refl)

  pub decode_trecord-IsTaken :
      (setid len : ℕ) (src : List ℕ) (m : Templates) (h : TemplateHeader)
      → read_template_header high_first setid len src ≡ done h
      → Holds (IsTaken m len h) (decode_trecord types high_first relay setid len src m)
  unfolding decode_trecord
  decode_trecord-IsTaken setid len src m h e = rw e (
      Holds-after (Keeps m) (IsTaken m len h) (withdraw setid h m) _ (Keeps-withdraw setid h m)
        (λ left k.
          Holds-after (Keeps left) (IsTaken m len h) (delete_old h.templid left) _
            (Keeps-delete_old h.templid left)
            (λ rest l. IsTaken-new_template m rest h len src (l ∙ k))))
