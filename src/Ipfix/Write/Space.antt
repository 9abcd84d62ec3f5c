-- ===== src/Ipfix/Write/Space.antt =====
-- What becomes of the header of a message for which the buffer has no space.
use m_nslp.Prelude.{
  ℕ, ◌+◌, ◌-◌, ◌≤◌, ◌<◌, ◌≡◌, ◌↔◌, Bool, true, false, List, arith, ◌==◌, length, Bool-cases, inl,
  inr, refl, subst,
}
use m_nslp.Ipfix.Import.{Decoded, done, refused, undefined, bind}
use m_nslp.Ipfix.Header.{Header, version_nf9}
use m_nslp.Ipfix.Read.{header_bytes}
use m_nslp.Ipfix.Write.{allocate_additional_memory, put_first, nf9_bytes, ipfix_bytes, write_hdr}

-- How an attempt to put bytes before a buffer fails.
abbrev Fails : ℕ → Header → Decoded Header → Type 0
Fails size h m =
    ((m ≡ undefined) ↔ (
      (h.buffer_lenght < size + h.offset)
      × (h.offset + (size + h.offset - h.buffer_lenght) ≤ h.buffer_lenght)))
    × ((m ≡ refused) ↔ (h.buffer_lenght < h.offset + (size + h.offset - h.buffer_lenght)))

put_first-Fails : (bytes : List ℕ) (h : Header) → Fails (length bytes) h (put_first bytes h)
unfolding put_first allocate_additional_memory
put_first-Fails bytes h = (
  (λ e. ground (arith, e), λ e. ground (arith, e)),
  (λ e. ground (arith, e), λ e. ground (arith, e)),
)

after-Fails :
    (size : ℕ) (h : Header) (m : Decoded Header) (f : Header → Header)
    → Fails size h m
    → Fails size h (bind m (λ a. done (f a)))
after-Fails size h (done a) f fails = (
  (λ e. absurd (cc e), λ e. absurd (cc (fails.0.1 e))),
  (λ e. absurd (cc e), λ e. absurd (cc (fails.1.1 e))),
)
after-Fails size h refused f fails = fails
after-Fails size h undefined f fails = fails

length-nf9_bytes :
    (high_first : Bool) (now start : ℕ) (h : Header)
    → length (nf9_bytes high_first now start h) ≡ 20
unfolding nf9_bytes
length-nf9_bytes true now start h = refl
length-nf9_bytes false now start h = refl

length-ipfix_bytes :
    (high_first : Bool) (now : ℕ) (h : Header) → length (ipfix_bytes high_first now h) ≡ 16
unfolding ipfix_bytes
length-ipfix_bytes true now h = refl
length-ipfix_bytes false now h = refl

-- For a header that does not fit into the buffer nothing is enlarged: it is written past the end if
-- the bytes that are missing fit into the free part of the buffer, and otherwise the export throws,
-- since the success of `realloc` is taken for a failure. The export is undefined and throws in no
-- other case.
pub export_space :
    (high_first : Bool) (now start : ℕ) (h : Header)
    → ((write_hdr high_first now start h ≡ undefined) ↔ (
        (h.buffer_lenght < header_bytes h.version + h.offset)
        × (h.offset + (header_bytes h.version + h.offset - h.buffer_lenght) ≤ h.buffer_lenght)))
      × ((write_hdr high_first now start h ≡ refused)
          ↔ (h.buffer_lenght < h.offset + (header_bytes h.version + h.offset - h.buffer_lenght)))
unfolding write_hdr
export_space high_first now start h = elim (Bool-cases (h.version == version_nf9)) [
  | inl nf9 ↦ rw nf9 (
      after-Fails 20 h (put_first (nf9_bytes high_first now start h) h) _ (
        subst (λ n. Fails n h (put_first (nf9_bytes high_first now start h) h))
          (length-nf9_bytes high_first now start h)
          (put_first-Fails (nf9_bytes high_first now start h) h)))
  | inr other ↦ rw other (
      after-Fails 16 h (put_first (ipfix_bytes high_first now h) h) _ (
        subst (λ n. Fails n h (put_first (ipfix_bytes high_first now h) h))
          (length-ipfix_bytes high_first now h) (put_first-Fails (ipfix_bytes high_first now h) h)))
]
