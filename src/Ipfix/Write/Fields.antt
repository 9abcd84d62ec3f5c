-- ===== src/Ipfix/Write/Fields.antt =====
-- The fields of a template that were written are read back.
use mathlib.Core.List.{append_assoc, append-nil}
use m_nslp.Prelude.{
  ℕ, zero, suc, ◌+◌, ◌-◌, ◌%◌, ◌≤◌, ◌<◌, ◌≡◌, refl, sym, ap, ◌∙◌, inl, inr, Bool, true, false, some,
  List, [], ◌∷◌, ◌++◌, arith, ltb, leb, ◌==◌, length, Bool-cases,
}
use m_nslp.Wire.Object.{drop}
use m_nslp.Ipfix.{FieldType}
use m_nslp.Ipfix.Template.{
  TemplateField, Template, get_numfields, add_data_field, get_field, at_index, fetched,
}
use m_nslp.Ipfix.Import.{done, read_field, read_template_fields, find_type, add_field}
use m_nslp.Ipfix.Message.{vendor_bit, field_at}
use m_nslp.Ipfix.Write.{field_bytes, fields_bytes}
use m_nslp.Ipfix.Write.Reading.{two, four}

length-append : {A : Type 0} (xs ys : List A) → length (xs ++ ys) ≡ length xs + length ys
length-append [] ys = omega arith
length-append (x ∷ xs) ys = omega (arith, length-append xs ys)

drop-length : (xs ys : List ℕ) → drop (length xs) (xs ++ ys) ≡ ys
drop-length [] ys = refl
drop-length (x ∷ xs) ys = drop-length xs ys

drop-nil : (n : ℕ) → drop n [] ≡ []
drop-nil zero = refl
drop-nil (suc n) = refl

drop_add : (m n : ℕ) (src : List ℕ) → drop (m + n) src ≡ drop n (drop m src)
drop_add zero n src = let e : 0 + n ≡ n = omega arith in ap (λ k. drop k src) e
drop_add (suc m) n [] = drop-nil (suc m + n) ∙ sym (drop-nil n)
drop_add (suc m) n (b ∷ src) =
    let e : suc m + n ≡ suc (m + n) = omega arith in ap (λ k. drop k (b ∷ src)) e ∙ drop_add m n src

module _ (types : List FieldType) (relay : Bool) where
  -- A field whose numbers fit, and whose type is known.
  abbrev pub IsKnown : TemplateField → Type 0
  IsKnown f =
      (f.elem_type.ftype < 0x8000)
      × (f.flength < 65536)
      × (f.elem_type.eno < 0x1_0000_0000)
      × (find_type f.elem_type.eno f.elem_type.ftype types ≡ some f.elem_type)

  -- What the import makes of a field.
  abbrev pub imported : TemplateField → TemplateField
  imported f = record f { unknown_f = false; relay_f = relay }

  read_field-field_bytes :
      (is_scope : Bool) (t : Template) (f : TemplateField) (buflen : ℕ) (rest : List ℕ)
      → IsKnown f
      → length (field_bytes true f) ≤ buflen
      → get_numfields t < t.maxfields
      → read_field types true relay is_scope t buflen (field_bytes true f ++ rest)
        ≡ done (add_field is_scope (imported f) t, length (field_bytes true f))
  unfolding read_field field_bytes
  read_field-field_bytes is_scope t f buflen rest (small, fits, eno_fits, known) space room =
      let not_full : leb t.maxfields (get_numfields t) ≡ false = ground (arith, room) in
      elim (Bool-cases (f.elem_type.eno == 0)) [
        | inl z ↦
            let none_eno : f.elem_type.eno ≡ 0 = ground (arith, z) in
            let zero_eno : find_type 0 f.elem_type.ftype types ≡ some f.elem_type =
              ap (λ e. find_type e f.elem_type.ftype types) (sym none_eno) ∙ known in
            let enough : ltb buflen 4 ≡ false = ground (arith, space, z) in
            let low : ltb f.elem_type.ftype 0x8000 ≡ true = ground (arith, small) in
            rw
              (
                z,
                enough,
                not_full,
                two f.elem_type.ftype (omega (arith, small)),
                two f.flength fits,
                low,
                zero_eno,
              )
              refl
        | inr nz ↦
            let enough : ltb buflen 4 ≡ false = ground (arith, space, nz) in
            let enough8 : ltb buflen 8 ≡ false = ground (arith, space, nz) in
            let high : ltb (f.elem_type.ftype % vendor_bit + vendor_bit) 0x8000 ≡ false =
              ground arith in
            let back : f.elem_type.ftype % vendor_bit + vendor_bit - 0x8000 ≡ f.elem_type.ftype =
              omega (arith, small) in
            rw
              (
                nz,
                enough,
                not_full,
                two (f.elem_type.ftype % vendor_bit + vendor_bit) (omega arith),
                two f.flength fits,
                high,
                enough8,
                four f.elem_type.eno eno_fits,
                back,
                known,
              )
              refl
      ]

  abbrev pub AllKnown : List TemplateField → Type 0
  AllKnown [] = Unit
  AllKnown (f ∷ fs) = IsKnown f × AllKnown fs

  -- The bytes of several fields.
  abbrev bytes_of : List TemplateField → List ℕ
  bytes_of [] = []
  bytes_of (f ∷ fs) = field_bytes true f ++ bytes_of fs

  abbrev pub all_imported : List TemplateField → List TemplateField
  all_imported [] = []
  all_imported (f ∷ fs) = imported f ∷ all_imported fs

  field_bytes-pos : (f : TemplateField) → 0 < length (field_bytes true f)
  unfolding field_bytes
  field_bytes-pos f = ground arith

  read_all :
      (fs : List TemplateField) (i offset len : ℕ) (t : Template) (src rest : List ℕ)
      → AllKnown fs
      → drop offset src ≡ bytes_of fs ++ rest
      → offset + length (bytes_of fs) ≤ len
      → get_numfields t + length fs ≤ t.maxfields
      → read_template_fields types true relay (length fs) i 0 t offset len src
        ≡ done (
          record t { datafields = t.datafields ++ all_imported fs },
          offset + length (bytes_of fs),
        )
  unfolding read_template_fields add_data_field
  read_all [] i offset len t src rest known here space room =
      let e : offset ≡ offset + 0 = omega arith in
      λ k. done (record t { datafields = sym (append-nil t.datafields) k }, e k)
  read_all (f ∷ fs) i offset len t src rest known here space room =
      let shape : drop offset src ≡ field_bytes true f ++ (bytes_of fs ++ rest) =
        here ∙ append_assoc (field_bytes true f) (bytes_of fs) rest in
      let split = length-append (field_bytes true f) (bytes_of fs) in
      let more : leb len offset ≡ false = ground (arith, field_bytes-pos f, space, split) in
      let no_scope : ltb i 0 ≡ false = ground arith in
      let first =
        read_field-field_bytes false t f (len - offset) (bytes_of fs ++ rest) known.0
          (omega (arith, space, split)) (omega (arith, room)) in
      let there : drop (offset + length (field_bytes true f)) src ≡ bytes_of fs ++ rest =
        drop_add offset (length (field_bytes true f)) src
        ∙ ap (drop (length (field_bytes true f))) shape
        ∙ drop-length (field_bytes true f) (bytes_of fs ++ rest) in
      let added = length-append t.datafields (imported f ∷ []) in
      let tail =
        read_all fs (suc i) (offset + length (field_bytes true f)) len
          (record t { datafields = t.datafields ++ imported f ∷ [] }) src rest known.1 there
          (omega (arith, space, split)) (omega (arith, room, added)) in
      let sizes : offset + length (field_bytes true f) + length (bytes_of fs)
          ≡ offset + length (field_bytes true f ++ bytes_of fs) =
        omega (arith, split) in
      rw (more, no_scope, shape, first)
        (tail ∙ λ k. done (
          record t { datafields = append_assoc t.datafields (imported f ∷ []) (all_imported fs) k },
          sizes k,
        ))

  at_index-append :
      (pre : List TemplateField) (f : TemplateField) (fs : List TemplateField)
      → at_index (length pre) (pre ++ f ∷ fs) ≡ fetched f
  at_index-append [] f fs = refl
  at_index-append (g ∷ pre) f fs = at_index-append pre f fs

  field_at-append :
      (t : Template) (pre : List TemplateField) (f : TemplateField) (fs : List TemplateField)
      → t.scopefields ≡ []
      → t.datafields ≡ pre ++ f ∷ fs
      → field_at (length pre) t ≡ done f
  unfolding get_field
  field_at-append t pre f fs scope e =
      let longer = length-append pre (f ∷ fs) in
      let inside : leb (length (pre ++ f ∷ fs) + 0) (length pre) ≡ false = ground (arith, longer) in
      let here : ltb (length pre) 0 ≡ false = ground arith in
      rw (e, scope, field_at, inside, here, at_index-append pre f fs) refl

  write_all :
      (t : Template) (pre fs : List TemplateField)
      → t.scopefields ≡ []
      → t.datafields ≡ pre ++ fs
      → fields_bytes true (length fs) (length pre) t ≡ done (bytes_of fs)
  unfolding fields_bytes
  write_all t pre [] scope e = refl
  write_all t pre (f ∷ fs) scope e =
      let one_more = length-append pre (f ∷ []) in
      let next : suc (length pre) ≡ length (pre ++ f ∷ []) = omega (arith, one_more) in
      let later = write_all t (pre ++ f ∷ []) fs scope (e ∙ sym (append_assoc pre (f ∷ []) fs)) in
      rw (field_at-append t pre f fs scope e, next, later) refl

  -- The fields of a data template, written in network order, are read back from a record that has
  -- them at any place: the template that is filled gets as many fields, of the same lengths and types,
  -- and the reading ends where the bytes end. Every field fits its numbers and is of a known type, and
  -- the template that is filled has room and no fields yet.
  pub template_fields_roundtrip :
      (t fresh : Template) (before rest : List ℕ)
      → t.scopefields ≡ []
      → AllKnown t.datafields
      → fresh.scopefields ≡ []
      → fresh.datafields ≡ []
      → length t.datafields ≤ fresh.maxfields
      → (bytes : List ℕ) × (fields_bytes true (length t.datafields) 0 t ≡ done bytes)
        × (read_template_fields types true relay
              (length t.datafields)
              0
              0
              fresh
              (length before)
              (length before + length bytes)
              (before ++ (bytes ++ rest))
            ≡ done (
              record fresh { datafields = all_imported t.datafields },
              length before + length bytes,
            ))
  template_fields_roundtrip t fresh before rest scope known no_scope no_data room =
      let count : get_numfields fresh + length t.datafields ≤ fresh.maxfields =
        rw (no_scope, no_data) (omega (arith, room)) in
      let end = length before + length (bytes_of t.datafields) in
      let ends : end ≤ end = omega arith in
      (
        bytes_of t.datafields,
        write_all t [] t.datafields scope refl,
        read_all t.datafields 0 (length before) end fresh
              (before ++ (bytes_of t.datafields ++ rest)) rest known
              (drop-length before (bytes_of t.datafields ++ rest)) ends count
            ∙ λ k. done (
              record fresh { datafields = ap (λ d. d ++ all_imported t.datafields) no_data k },
              end,
            ),
      )
