-- ===== src/Ipfix/Read/Copying.antt =====
-- The copy of an imported message into its buffer.
use m_nslp.Prelude.{
  ℕ, ◌<◌, ◌≤◌, ◌≡◌, ◌↔◌, ◌∙◌, refl, ap, subst, Bool, false, Option, none, some, List, [], arith,
  ltb, ◌==◌, length,
}
use m_nslp.Wire.Object.{take}
use m_nslp.Ipfix.Message.{Message}
use m_nslp.Ipfix.{FieldType}
use m_nslp.Ipfix.Import.{Decoded, done, refused, undefined, bind, read16, read32}
use m_nslp.Ipfix.Import.Fields.{Holds, Holds-bind, Holds-choice, Holds-unless}
use m_nslp.Ipfix.Table.{initialize}
use m_nslp.Ipfix.Header.{
  Header, Copied, copied, not_enough, overflow, copy_raw_message, version_nf9, version_ipfix,
}
use m_nslp.Ipfix.Read.{
  Run, after_copy, imported_message, current_set, finished, run_undefined, once, Progress, init,
  parse_nf9, parse_ipfix, parse_hdr, read_sets, first_set, finish_import, mnslp_ipfix_import,
  numbers_high_first,
}

-- A header with an empty buffer of the default length.
abbrev IsFresh : Header × List FieldType → Type 0
IsFresh h = (h.0.offset ≡ 0) × (h.0.buffer_lenght ≡ 1400)

init-IsFresh : (sourceid version : ℕ) → Holds IsFresh (init sourceid version)
unfolding init
init-IsFresh sourceid version = Holds-bind IsFresh (initialize []) _ (λ types e. (refl, refl))

-- A number that is read does not matter for what holds of the result.
Holds-read :
    {A : Type 0} (d : Decoded A) (f : A → Decoded (Header × List FieldType))
    → ((a : A) → Holds IsFresh (f a))
    → Holds IsFresh (bind d f)
Holds-read d f h = Holds-bind IsFresh d f (λ a e. h a)

Holds-init :
    (d : Decoded (Header × List FieldType))
    (f : Header × List FieldType → Decoded (Header × List FieldType))
    → Holds IsFresh d
    → ((i : Header × List FieldType) → IsFresh i → Holds IsFresh (f i))
    → Holds IsFresh (bind d f)
Holds-init (done i) f h k = k i h
Holds-init refused f h k = tt
Holds-init undefined f h k = tt

parse_nf9-IsFresh : (high_first : Bool) (src : List ℕ) → Holds IsFresh (parse_nf9 high_first src)
unfolding parse_nf9
parse_nf9-IsFresh high_first src = Holds-unless IsFresh (ltb (length src) 20) _ (λ l.
    Holds-read (read16 high_first 2 src) _ (λ count.
      Holds-read (read32 high_first 4 src) _ (λ sysuptime.
        Holds-read (read32 high_first 8 src) _ (λ unixtime.
          Holds-read (read32 high_first 12 src) _ (λ seqno.
            Holds-read (read32 high_first 16 src) _ (λ sourceid.
              Holds-init (init sourceid version_nf9) _ (init-IsFresh sourceid version_nf9)
                (λ i fresh. (fresh.0, fresh.1))))))))

parse_ipfix-IsFresh :
    (high_first : Bool) (src : List ℕ) → Holds IsFresh (parse_ipfix high_first src)
unfolding parse_ipfix
parse_ipfix-IsFresh high_first src = Holds-unless IsFresh (ltb (length src) 16) _ (λ l.
    Holds-read (read16 high_first 2 src) _ (λ len.
      Holds-read (read32 high_first 4 src) _ (λ exporttime.
        Holds-read (read32 high_first 8 src) _ (λ seqno.
          Holds-read (read32 high_first 12 src) _ (λ sourceid.
            Holds-init (init sourceid version_ipfix) _ (init-IsFresh sourceid version_ipfix)
              (λ i fresh. (fresh.0, fresh.1)))))))

parse_hdr-IsFresh : (high_first : Bool) (src : List ℕ) → Holds IsFresh (parse_hdr high_first src)
unfolding parse_hdr
parse_hdr-IsFresh high_first src = Holds-read (read16 high_first 0 src) _ (λ version.
    Holds-choice IsFresh (version == version_nf9) _ _ (λ e. parse_nf9-IsFresh high_first src)
      (λ e.
        Holds-choice IsFresh (version == version_ipfix) _ _
          (λ g. parse_ipfix-IsFresh high_first src) (λ g. tt)))

-- Who reads `bytes` bytes of a message keeps them, with its header.
abbrev pub IsKept : List ℕ → ℕ → Run (Message × ℕ) → Type 0
IsKept src bytes r =
    (m : Message) × (g : Header) × (r ≡ finished (m, bytes))
    × (m.message ≡ some g)
    × (g.buffer ≡ take bytes src)
    × (g.offset ≡ bytes)

current_set-buffer :
    (o : Option (ℕ × ℕ)) (nread : ℕ) (h : Header)
    → ((current_set o nread h).buffer ≡ h.buffer) × ((current_set o nread h).offset ≡ h.offset)
current_set-buffer none nread h = (refl, refl)
current_set-buffer (some (setid, setlen)) nread h = ground arith

copies :
    (types : List FieldType) (network : Bool) (src : List ℕ) (h : Header) (p : Progress)
    → h.offset ≡ 0
    → h.buffer_lenght ≡ 1400
    → p.nread ≤ 1400
    → copy_raw_message src p.nread h
      ≡ copied (record h { buffer = take p.nread src; offset = p.nread })
unfolding copy_raw_message
copies types network src h p e g l = ground arith

keeps_copied :
    (types : List FieldType) (network : Bool) (src : List ℕ) (h : Header) (p : Progress)
    (c : Copied)
    → c ≡ copied (record h { buffer = take p.nread src; offset = p.nread })
    → IsKept src p.nread (after_copy types network p c)
keeps_copied types network src h p (copied g) e =
    let same = copied_header e in
    (
      imported_message types network p (record g { templates = p.templates.entries }),
      current_set p.last p.nread
          (record g { templates = p.templates.entries; nrecords = length p.data_list }),
      refl,
      refl,
      (current_set-buffer p.last p.nread _).0 ∙ ap (λ t. t.buffer) same,
      (current_set-buffer p.last p.nread _).1 ∙ ap (λ t. t.offset) same,
    )
  where
    copied_header :
        copied g ≡ copied (record h { buffer = take p.nread src; offset = p.nread })
        → g ≡ record h { buffer = take p.nread src; offset = p.nread }
    copied_header e = cc
keeps_copied types network src h p not_enough e = absurd (cc)
keeps_copied types network src h p overflow e = absurd (cc)

copies_or_overflows :
    (types : List FieldType) (network : Bool) (src : List ℕ) (h : Header) (p : Progress)
    → h.offset ≡ 0
    → h.buffer_lenght ≡ 1400
    → ((finish_import types network src h p ≡ run_undefined) ↔ (1400 < p.nread))
      × (p.nread ≤ 1400 → IsKept src p.nread (finish_import types network src h p))
unfolding finish_import copy_raw_message
copies_or_overflows types network src h p e g = (
  (λ x. ground (arith, x, e, g), λ x. ground (arith, x, e, g)),
  λ l.
      keeps_copied types network src h p (copy_raw_message src p.nread h)
        (copies types network src h p e g l),
)

-- A message of which the header and the sets are read is imported, with exactly the bytes that were
-- read in its buffer, if these are at most 1400. If they are more, and only then, bytes are written
-- past the end of the buffer: copy_raw_message compares the length of the buffer with the old
-- offset and not with the number of bytes.
pub long_message_overflows :
    (fuel : ℕ) (host network : Bool) (src : List ℕ) (h : Header × List FieldType) (p : Progress)
    → 1 < length src
    → parse_hdr (numbers_high_first host network) src ≡ done h
    → read_sets h.1 host network fuel fuel h.0.version h.0.count 0 src (first_set h.0.version)
      ≡ finished p
    → ((mnslp_ipfix_import fuel host network src ≡ run_undefined) ↔ (1400 < p.nread))
      × (p.nread ≤ 1400 → IsKept src p.nread (mnslp_ipfix_import fuel host network src))
unfolding mnslp_ipfix_import
long_message_overflows fuel host network src h p long parsed sets =
    let fresh : IsFresh h =
      subst (Holds IsFresh) parsed (parse_hdr-IsFresh (numbers_high_first host network) src) in
    let whole : ltb (length src) 2 ≡ false = ground arith in
    rw (whole, parsed, once, sets) (copies_or_overflows h.1 network src h.0 p fresh.0 fresh.1)
