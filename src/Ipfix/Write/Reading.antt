-- ===== src/Ipfix/Write/Reading.antt =====
-- A header that was written is read back.
use m_nslp.Prelude.{
  ℕ, ◌+◌, ◌*◌, ◌/◌, ◌%◌, ◌≤◌, ◌<◌, ◌≡◌, refl, true, false, List, ◌++◌, arith, ltb, length,
}
use m_nslp.Wire.Object.{take}
use m_nslp.Ipfix.Import.{done}
use m_nslp.Ipfix.Header.{Header, empty_header, version_ipfix}
use m_nslp.Ipfix.Table.Finding.{standard_types, initialize-standard}
use m_nslp.Ipfix.Read.{parse_hdr, parse_ipfix, init}
use m_nslp.Ipfix.Write.{put_first, ipfix_bytes, write_hdr, allocate_additional_memory}

pub two : (n : ℕ) → n < 65536 → n / 256 % 256 * 256 + n % 256 ≡ n
two n h = omega (arith, h)

pub four :
    (n : ℕ)
    → n < 0x1_0000_0000
    → (n / 65536 / 256 % 256 * 256 + n / 65536 % 256) * 65536 + (n / 256 % 256 * 256 + n % 256) ≡ n
four n h = omega (arith, h)

parse_ipfix_bytes :
    (now : ℕ) (h : Header) (rest : List ℕ)
    → h.version ≡ version_ipfix
    → h.offset + 16 < 65536
    → now < 0x1_0000_0000
    → h.nrecords < 0x1_0000_0000
    → h.sourceid < 0x1_0000_0000
    → parse_hdr true (ipfix_bytes true now h ++ rest)
      ≡ done (
        record empty_header {
          sourceid = h.sourceid;
          length = h.offset + 16;
          exporttime = now;
          seqno = h.nrecords;
        },
        standard_types,
      )
unfolding parse_hdr parse_ipfix init ipfix_bytes
parse_ipfix_bytes now h rest v l n r s =
    let enough : ltb (length (ipfix_bytes true now h ++ rest)) 16 ≡ false = ground arith in
    rw
      (
        v,
        initialize-standard,
        enough,
        two (h.offset + 16) l,
        four now n,
        four h.nrecords r,
        four h.sourceid s,
      )
      refl

-- The header of a message of version 10 in network order, for which the buffer has space, is read
-- back by the import with the version, the length, the time of the export and the domain. What the
-- reader takes for the sequence number is the number of records. The numbers fit their fields, and
-- the standard field types are known.
pub header_roundtrip :
    (now start : ℕ) (h : Header)
    → h.version ≡ version_ipfix
    → h.offset + 16 ≤ h.buffer_lenght
    → h.offset + 16 < 65536
    → now < 0x1_0000_0000
    → h.nrecords < 0x1_0000_0000
    → h.sourceid < 0x1_0000_0000
    → (g : Header) × (write_hdr true now start h ≡ done g)
      × (g.offset ≡ h.offset + 16)
      × (parse_hdr true g.buffer
          ≡ done (
            record empty_header {
              sourceid = h.sourceid;
              length = g.length;
              exporttime = now;
              seqno = h.nrecords;
            },
            standard_types,
          ))
unfolding write_hdr put_first allocate_additional_memory
header_roundtrip now start h v space l n r s =
    let small_length : (h.offset + 16) % 0x1_0000 ≡ h.offset + 16 = omega (arith, l) in
    let small_time : now % 0x1_0000_0000 ≡ now = omega (arith, n) in
    (
      record h {
        buffer = ipfix_bytes true now h ++ take h.offset h.buffer;
        offset = h.offset + 16;
        length = h.offset + 16;
        exporttime = now;
      },
      ground (arith, v, space, small_length, small_time),
      refl,
      parse_ipfix_bytes now h (take h.offset h.buffer) v l n r s,
    )
