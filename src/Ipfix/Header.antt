-- ===== src/Ipfix/Header.antt =====
-- src/msg/ipfix_t.cpp: the header of a message with its templates and its buffer. Time stamps and
-- counts of octets that nothing reads are left out, and so is the pointer into the buffer.
use m_nslp.Prelude.{
  ℕ, Bool, true, false, ◌&&◌, Option, none, some, List, [], leb, ltb, ◌==◌, if◌then◌else◌,
}
use m_nslp.Ipfix.Template.{Template, container_eq, assign_container}
use m_nslp.Wire.Object.{take}

abbrev pub default_buflen : ℕ
default_buflen = 1400

abbrev pub version_nf9 : ℕ
version_nf9 = 9

abbrev pub version_ipfix : ℕ
version_ipfix = 10

-- ipfix_t. The buffer is the bytes that were written to it, of `buffer_lenght` that it has.
pub record Header : Type 0 where
  pub sourceid : ℕ
  pub version : ℕ
  pub templates : List (ℕ × Template)
  pub nrecords : ℕ
  pub offset : ℕ
  pub buffer : List ℕ
  pub buffer_lenght : ℕ
  pub seqno : ℕ
  pub cs_tid : ℕ
  pub cs_bytes : ℕ
  pub cs_offset : ℕ
  pub count : ℕ
  pub sysuptime : ℕ
  pub unixtime : ℕ
  pub length : ℕ
  pub exporttime : ℕ

-- The constructor.
abbrev pub empty_header : Header
empty_header = record {
  sourceid = 0;
  version = version_ipfix;
  templates = [];
  nrecords = 0;
  offset = 0;
  buffer = [];
  buffer_lenght = default_buflen;
  seqno = 0;
  cs_tid = 0;
  cs_bytes = 0;
  cs_offset = 0;
  count = 0;
  sysuptime = 0;
  unixtime = 0;
  length = 0;
  exporttime = 0;
}

-- The copy constructor: the container is copied, and the part of the buffer before `offset`.
unfoldable pub copy : Header → Header
unfolding assign_container
copy rhs = record rhs {
  templates = assign_container [] rhs.templates;
  buffer = take rhs.offset rhs.buffer;
}

-- operator=
unfoldable pub assign : Header → Header → Header
unfolding assign_container
assign h rhs = record rhs {
  templates = assign_container h.templates rhs.templates;
  buffer = if ltb 0 rhs.buffer_lenght then take rhs.offset rhs.buffer else h.buffer;
}

-- The fields of the two versions, and the result if they are equal.
abbrev versions_eq : Header → Header → Bool
versions_eq h rhs =
    if h.version == version_nf9
    then rhs.count == h.count && rhs.sysuptime == h.sysuptime && rhs.unixtime == h.unixtime
    else if h.version == version_ipfix
    then rhs.length == h.length && rhs.exporttime == h.exporttime
    else true

abbrev and_then : Option Bool → Bool → Option Bool
and_then none later = none
and_then (some true) later = some later
and_then (some false) later = some false

-- operator==; `none` stands for reading past the end of the fields of a template.
unfoldable pub equals : Header → Header → Option Bool
unfolding container_eq
equals h rhs =
    if h.sourceid == rhs.sourceid && h.version == rhs.version
    then and_then (container_eq h.templates rhs.templates) (
        h.nrecords == rhs.nrecords
        && h.offset == rhs.offset
        && h.buffer_lenght == rhs.buffer_lenght
        && h.seqno == rhs.seqno
        && versions_eq h rhs)
    else some false

-- What copy_raw_message does.
pub data Copied : Type 0 where
  copied : Header → Copied
  -- mnslp_ipfix_bad_argument
  not_enough : Copied
  -- More bytes are written than the buffer has.
  overflow : Copied

-- copy_raw_message
unfoldable pub copy_raw_message : List ℕ → ℕ → Header → Copied
copy_raw_message msg bytes h =
    if leb h.offset h.buffer_lenght
    then (if leb bytes h.buffer_lenght
        then copied (record h { buffer = take bytes msg; offset = bytes })
        else overflow)
    else not_enough

-- reinitiate_buffer
unfoldable pub reinitiate_buffer : Header → Header
reinitiate_buffer h = record h { buffer = []; buffer_lenght = default_buflen; offset = 0 }
