-- ===== src/Ipfix/Import/Fields.antt =====
-- What the reading of the fields of a template keeps: src/msg/mnslp_ipfix_message.cpp.
use m_nslp.Prelude.{
  ℕ, zero, suc, ◌+◌, ◌-◌, ◌*◌, ◌≤◌, ◌<◌, ◌≡◌, refl, Bool, true, false, List, arith, ltb, leb,
  if◌then◌else◌, ◌∙◌,
}
use m_nslp.Ipfix.{FieldType}
use m_nslp.Ipfix.Template.{TemplateField, Template, get_numfields, add_data_field, add_scope_field}
use m_nslp.Wire.Object.{drop}
use m_nslp.Ipfix.Import.{
  Decoded, done, refused, undefined, bind, read_field, add_field, typed_field, known_or_not,
  find_type, read16, read32, read_template_fields,
}

-- What holds of a result that is accepted.
abbrev pub Holds : {A : Type 0} → (A → Type 0) → Decoded A → Type 0
Holds Q (done a) = Q a
Holds Q refused = Unit
Holds Q undefined = Unit

-- The result is not accepted.
abbrev pub IsRejected : {A : Type 0} → Decoded A → Type 0
IsRejected p = Holds (λ a. ⊥) p

pub Holds-bind :
    {A B : Type 0} (Q : B → Type 0) (p : Decoded A) (f : A → Decoded B)
    → ((a : A) → p ≡ done a → Holds Q (f a))
    → Holds Q (bind p f)
Holds-bind Q (done a) f h = h a refl
Holds-bind Q refused f h = tt
Holds-bind Q undefined f h = tt

pub Holds-unless :
    {A : Type 0} (Q : A → Type 0) (b : Bool) (p : Decoded A)
    → (b ≡ false → Holds Q p)
    → Holds Q (if b then refused else p)
Holds-unless Q true p h = tt
Holds-unless Q false p h = h refl

pub Holds-choice :
    {A : Type 0} (Q : A → Type 0) (b : Bool) (p q : Decoded A)
    → (b ≡ true → Holds Q p)
    → (b ≡ false → Holds Q q)
    → Holds Q (if b then p else q)
Holds-choice Q true p q h k = h refl
Holds-choice Q false p q h k = k refl

pub not_less : (a b : ℕ) → ltb a b ≡ false → b ≤ a
not_less a b h = ground arith

less : (a b : ℕ) → leb b a ≡ false → a < b
less a b h = ground arith

-- Two templates differ in their fields only.
abbrev pub SameFrame : Template → Template → Type 0
SameFrame t u = (u.tid ≡ t.tid) × (u.type ≡ t.type) × (u.maxfields ≡ t.maxfields)

add_field-SameFrame : (b : Bool) (f : TemplateField) (t : Template) → SameFrame t (add_field b f t)
unfolding add_data_field add_scope_field
add_field-SameFrame true f t = (refl, refl, refl)
add_field-SameFrame false f t = (refl, refl, refl)

-- A field takes at least four bytes, and no more than there are.
abbrev Within : Template → ℕ → Template × ℕ → Type 0
Within t buflen r = (4 ≤ r.1) × (r.1 ≤ buflen) × SameFrame t r.0

-- The fields of a template take at least four bytes each, and end within the record.
abbrev pub Covers : Template → ℕ → ℕ → ℕ → Template × ℕ → Type 0
Covers t count offset len r =
    (offset + 4 * count ≤ r.1) × (offset ≤ len → r.1 ≤ len) × SameFrame t r.0

module _ (types : List FieldType) (high_first relay : Bool) where
  Within-typed_field :
      (is_scope : Bool) (t : Template) (buflen : ℕ) (src : List ℕ) (ftype flength : ℕ)
      → 4 ≤ buflen
      → Holds
          (Within t buflen)
          (typed_field types high_first relay is_scope t buflen src ftype flength)
  Within-typed_field is_scope t buflen src ftype flength four =
      Holds-choice (Within t buflen) (ltb ftype 0x8000) _ _
        (λ e.
          Holds-bind (Within t buflen)
            (known_or_not relay flength (find_type 0 ftype types) (find_type 0 0 types)) _
            (λ f g. (omega arith, four, add_field-SameFrame is_scope f t)))
        (λ e. Holds-unless (Within t buflen) (ltb buflen 8) _ (λ k.
          Holds-bind (Within t buflen) (read32 high_first 4 src) _ (λ eno g.
            Holds-bind (Within t buflen)
              (known_or_not relay flength (find_type eno (ftype - 0x8000) types)
                (find_type 0 0 types))
              _ (λ f l. (omega arith, not_less buflen 8 k, add_field-SameFrame is_scope f t)))))

  Within-read_field :
      (is_scope : Bool) (t : Template) (buflen : ℕ) (src : List ℕ)
      → Holds (Within t buflen) (read_field types high_first relay is_scope t buflen src)
  unfolding read_field
  Within-read_field is_scope t buflen src = Holds-unless (Within t buflen) (ltb buflen 4) _ (λ four.
      Holds-unless (Within t buflen) (leb t.maxfields (get_numfields t)) _ (λ room.
        Holds-bind (Within t buflen) (read16 high_first 0 src) _ (λ ftype e.
          Holds-bind (Within t buflen) (read16 high_first 2 src) _ (λ flength g.
            Within-typed_field is_scope t buflen src ftype flength (not_less buflen 4 four)))))

  Holds-imp :
      {A : Type 0} (Q R : A → Type 0) (p : Decoded A)
      → ((a : A) → Q a → R a)
      → Holds Q p
      → Holds R p
  Holds-imp Q R (done a) h k = h a k
  Holds-imp Q R refused h k = tt
  Holds-imp Q R undefined h k = tt

  pub Covers-read_template_fields :
      (count i nscope : ℕ) (t : Template) (offset len : ℕ) (src : List ℕ)
      → Holds
          (Covers t count offset len)
          (read_template_fields types high_first relay count i nscope t offset len src)
  unfolding read_template_fields
  Covers-read_template_fields zero i nscope t offset len src =
      (omega arith, (λ h. h), (refl, refl, refl))
  Covers-read_template_fields (suc count) i nscope t offset len src =
      Holds-unless (Covers t (suc count) offset len) (leb len offset) _ (λ l.
        next (less offset len l)
          (read_field types high_first relay (ltb i nscope) t (len - offset) (drop offset src))
          (Within-read_field (ltb i nscope) t (len - offset) (drop offset src))
          (λ u k. Covers-read_template_fields count (suc i) nscope u (offset + k) len src))
    where
      next :
          offset < len
          → (p : Decoded (Template × ℕ)) → Holds (Within t (len - offset)) p
          → ((u : Template) (k : ℕ)
              → Holds (Covers u count (offset + k) len) (
                  read_template_fields types high_first relay count
                    (suc i)
                    nscope
                    u
                    (offset + k)
                    len
                    src))
          → Holds (Covers t (suc count) offset len) (
              bind p (λ r.
                read_template_fields types high_first relay count
                  (suc i)
                  nscope
                  r.0
                  (offset + r.1)
                  len
                  src))
      next l (done (u, k)) w ih =
          Holds-imp (Covers u count (offset + k) len) (Covers t (suc count) offset len) _
            (λ r c. (
              omega (arith, c.0, w.0),
              (λ h. c.1 (omega (arith, w.1))),
              (c.2.0 ∙ w.2.0, c.2.1 ∙ w.2.1, c.2.2 ∙ w.2.2),
            ))
            (ih u k)
      next l refused w ih = tt
      next l undefined w ih = tt
