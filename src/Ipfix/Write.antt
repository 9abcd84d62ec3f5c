-- ===== src/Ipfix/Write.antt =====
-- The export of a message, up to its data sets: allocate_additional_memory, _write_hdr and
-- _write_template of src/msg/mnslp_ipfix_message.cpp. A buffer holds the bytes before its offset.
pub mod Space
pub mod Reading
pub mod Fields
use m_nslp.Prelude.{
  ℕ, zero, suc, ◌+◌, ◌-◌, ◌*◌, ◌/◌, ◌%◌, Bool, true, false, List, [], ◌∷◌, ◌++◌, ltb, ◌==◌, length,
  if◌then◌else◌,
}
use m_nslp.Wire.Object.{take}
use m_nslp.Ipfix.{FieldType}
use m_nslp.Ipfix.Template.{
  TemplateField, TemplateType, data_template, option_template, Template, get_numfields,
}
use m_nslp.Ipfix.Import.{Decoded, done, refused, undefined, bind}
use m_nslp.Ipfix.Header.{Header, version_nf9, version_ipfix}
use m_nslp.Ipfix.Message.{vendor_bit, field_at}

-- INSERTU16 and INSERT_U16_NOENCODE, which keep the low 16 bits.
abbrev pub word16 : Bool → ℕ → List ℕ
word16 true n = n / 256 % 256 ∷ n % 256 ∷ []
word16 false n = n % 256 ∷ n / 256 % 256 ∷ []

-- INSERTU32 and INSERT_U32_NOENCODE, which keep the low 32 bits.
abbrev pub word32 : Bool → ℕ → List ℕ
word32 true n = word16 true (n / 65536) ++ word16 true n
word32 false n = word16 false n ++ word16 false (n / 65536)

-- allocate_additional_memory: if `realloc` makes a buffer, which it is taken to do, an exception is
-- thrown.
unfoldable pub allocate_additional_memory : ℕ → Header → Decoded Header
allocate_additional_memory additional h =
    if ltb h.buffer_lenght (h.offset + additional) then refused else done h

-- Bytes are put before those in the buffer, after the check of the space.
unfoldable pub put_first : List ℕ → Header → Decoded Header
unfolding allocate_additional_memory
put_first bytes h =
    bind
      (if ltb h.buffer_lenght (length bytes + h.offset)
        then allocate_additional_memory (length bytes + h.offset - h.buffer_lenght) h
        else done h)
      (λ g.
        if ltb g.buffer_lenght (length bytes + g.offset)
        then undefined
        else done (record g {
          buffer = bytes ++ take g.offset g.buffer;
          offset = g.offset + length bytes;
        }))

-- The bytes of the header of version 9, at the time `now` for a message begun at `start`. Both are
-- numbers of 64 bits.
unfoldable pub nf9_bytes : Bool → ℕ → ℕ → Header → List ℕ
nf9_bytes high_first now start h =
    word16 high_first h.version
    ++ (word16 high_first h.nrecords
        ++ (word32 high_first ((now + 18446744073709551616 - start) * 1000)
            ++ (word32 high_first now
                ++ (word32 high_first (h.seqno + 1) ++ word32 high_first h.sourceid))))

-- The bytes of the header of the other version.
unfoldable pub ipfix_bytes : Bool → ℕ → Header → List ℕ
ipfix_bytes high_first now h =
    word16 high_first h.version
    ++ (word16 high_first (h.offset + 16)
        ++ (word32 high_first now
            ++ (word32 high_first h.nrecords ++ word32 high_first h.sourceid)))

-- _write_hdr
unfoldable pub write_hdr : Bool → ℕ → ℕ → Header → Decoded Header
unfolding put_first nf9_bytes ipfix_bytes
write_hdr high_first now start h =
    if h.version == version_nf9
    then bind (put_first (nf9_bytes high_first now start h) h)
        (λ g. done (record g { seqno = (h.seqno + 1) % 0x1_0000_0000 }))
    else bind (put_first (ipfix_bytes high_first now h) h) (λ g.
      done (record g { length = (h.offset + 16) % 0x1_0000; exporttime = now % 0x1_0000_0000 }))

-- The bytes of a field in a template; 0 is the number of no enterprise.
unfoldable pub field_bytes : Bool → TemplateField → List ℕ
field_bytes high_first f =
    if f.elem_type.eno == 0
    then word16 high_first f.elem_type.ftype ++ word16 high_first f.flength
    else word16 high_first (vendor_or f.elem_type.ftype)
      ++ (word16 high_first f.flength ++ word32 high_first f.elem_type.eno)
  where
    vendor_or : ℕ → ℕ
    vendor_or n = n % vendor_bit + vendor_bit

-- The loops over the fields of a template: `count` fields from field `i` on.
unfoldable pub fields_bytes : Bool → ℕ → ℕ → Template → Decoded (List ℕ)
unfolding field_bytes
fields_bytes high_first zero i t = done []
fields_bytes high_first (suc count) i t = bind (field_at i t) (λ f.
    bind (fields_bytes high_first count (suc i) t)
      (λ rest. done (field_bytes high_first f ++ rest)))

-- The ids of the sets of templates, by version and type.
abbrev pub set_id : ℕ → TemplateType → ℕ
set_id version option_template = if version == version_nf9 then 1 else 3
set_id version data_template = if version == version_nf9 then 0 else 2

-- The counts at the start of a template: of bytes in an options template of version 9, of fields
-- otherwise.
abbrev pub counts : Bool → ℕ → Template → List ℕ → List ℕ → List ℕ
counts high_first version t scope others = elim (t.type) [
  | data_template ↦ word16 high_first (get_numfields t)
  | option_template ↦
      if version == version_nf9
      then word16 high_first (length scope) ++ word16 high_first (length others)
      else word16 high_first (get_numfields t) ++ word16 high_first (length t.scopefields)
]

-- The bytes of a template set, from those of the scope fields and of the other fields.
abbrev pub template_bytes : Bool → ℕ → Template → List ℕ → List ℕ → List ℕ
template_bytes high_first version t scope others =
    set_start
      (word16 high_first t.tid ++ (counts high_first version t scope others ++ (scope ++ others)))
  where
    set_start : List ℕ → List ℕ
    set_start body =
        word16 high_first (set_id version t.type) ++ (word16 high_first (length body + 4) ++ body)

-- _write_template, at the time `now`, with the template that is changed.
unfoldable pub write_template : Bool → ℕ → Template → Header → Decoded (Template × Header)
unfolding fields_bytes put_first
write_template high_first now t h =
    bind (fields_bytes high_first (length t.scopefields) 0 t) (λ scope.
      bind
        (fields_bytes high_first (get_numfields t - length t.scopefields) (length t.scopefields) t)
        (λ others. bind (put_first (template_bytes high_first h.version t scope others) h) (λ g.
          done (
            record t { tsend = now },
            record g {
              cs_offset =
                  if ltb 0 h.offset then h.cs_offset + (g.offset - h.offset) else h.cs_offset;
              nrecords = if h.version == version_nf9 then h.nrecords + 1 else h.nrecords;
            },
          ))))
