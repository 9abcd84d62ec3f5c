-- ===== src/Ipfix/Read.antt =====
-- The import of a whole message: mnslp_ipfix_import of src/msg/mnslp_ipfix_message.cpp. Its loops are
-- run on fuel, one for all of them.
pub mod Hanging
pub mod Ends
pub mod Copying
use m_nslp.Prelude.{
  ℕ, zero, suc, ◌+◌, ◌-◌, Bool, true, false, not, ◌&&◌, ◌||◌, Option, none, some, List, [], ◌∷◌,
  ◌++◌, ltb, leb, ◌==◌, length, if◌then◌else◌,
}
use m_nslp.Wire.Object.{drop}
use m_nslp.Ipfix.{FieldType}
use m_nslp.Ipfix.Template.{Template, get_template}
use m_nslp.Ipfix.Record.{
  DataRecord, SetReading, read_set, set_throws, set_overrun, endless, read_data_set,
}
use m_nslp.Ipfix.Import.{
  Decoded, done, refused, undefined, bind, read16, read32, Templates, decode_trecord,
}
use m_nslp.Ipfix.Table.{initialize}
use m_nslp.Ipfix.Header.{
  Header, empty_header, Copied, copied, not_enough, overflow, copy_raw_message, version_nf9,
  version_ipfix,
}
use m_nslp.Ipfix.Message.{Message}

-- What a function with loops returns, or how it ends.
pub data Run (A : Type 0) : Type 0 where
  finished : A → Run A
  -- mnslp_ipfix_bad_argument
  run_refused : Run A
  run_undefined : Run A
  -- The fuel was not enough.
  out_of_fuel : Run A

abbrev pub run : {A B : Type 0} → Run A → (A → Run B) → Run B
run (finished a) f = f a
run run_refused f = run_refused
run run_undefined f = run_undefined
run out_of_fuel f = out_of_fuel

abbrev pub once : {A B : Type 0} → Decoded A → (A → Run B) → Run B
once (done a) f = f a
once refused f = run_refused
once undefined f = run_undefined

-- init, from a container of field types that `close` has emptied.
unfoldable pub init : ℕ → ℕ → Decoded (Header × List FieldType)
init sourceid version =
    bind (initialize [])
      (λ types. done (record empty_header { sourceid = sourceid; version = version }, types))

-- The header of version 9.
unfoldable pub parse_nf9 : Bool → List ℕ → Decoded (Header × List FieldType)
parse_nf9 high_first src =
    if ltb (length src) 20
    then refused
    else bind (read16 high_first 2 src) (λ count. bind (read32 high_first 4 src) (λ sysuptime.
      bind (read32 high_first 8 src) (λ unixtime. bind (read32 high_first 12 src) (λ seqno.
        bind (read32 high_first 16 src) (λ sourceid. bind (init sourceid version_nf9) (λ i. done (
          record (i.0) { count = count; sysuptime = sysuptime; unixtime = unixtime; seqno = seqno },
          i.1,
        )))))))

-- The header of version 10.
unfoldable pub parse_ipfix : Bool → List ℕ → Decoded (Header × List FieldType)
parse_ipfix high_first src =
    if ltb (length src) 16
    then refused
    else bind (read16 high_first 2 src) (λ len. bind (read32 high_first 4 src) (λ exporttime.
      bind (read32 high_first 8 src) (λ seqno. bind (read32 high_first 12 src) (λ sourceid.
        bind (init sourceid version_ipfix) (λ i.
          done (record (i.0) { length = len; exporttime = exporttime; seqno = seqno }, i.1))))))

-- mnslp_ipfix_parse_hdr. For another version a member of `message` is written, which is NULL or was
-- deleted by `close`.
unfoldable pub parse_hdr : Bool → List ℕ → Decoded (Header × List FieldType)
parse_hdr high_first src = bind (read16 high_first 0 src) (λ version.
    if version == version_nf9
    then parse_nf9 high_first src
    else if version == version_ipfix
    then parse_ipfix high_first src
    else undefined)

-- Numbers are read in network order, or in the order of the host.
abbrev pub numbers_high_first : Bool → Bool → Bool
numbers_high_first host_little network = network || not host_little

module _ (types : List FieldType) (host_little network : Bool) where
  -- The loop over the records of a template set, of which `bytesleft` bytes are left.
  unfoldable pub read_template_set : ℕ → ℕ → ℕ → List ℕ → Templates → Run Templates
  read_template_set zero setid bytesleft src m = if ltb 4 bytesleft then out_of_fuel else finished m
  read_template_set (suc fuel) setid bytesleft src m =
      let next =
        once
          (decode_trecord types (numbers_high_first host_little network) network setid bytesleft src
            m)
          (λ r. read_template_set fuel setid (bytesleft - r.1) (drop (r.1) src) r.0) in
      if ltb 4 bytesleft then next else finished m

-- The variables of the loop over the sets. The last set is its id and length.
pub record Progress : Type 0 where
  pub templates : Templates
  pub data_list : List DataRecord
  pub nread : ℕ
  pub last : Option (ℕ × ℕ)

-- Whether the loop over the sets ends: `i` sets were read, and a message of version 9 says how many
-- it has.
abbrev pub at_end : ℕ → ℕ → ℕ → List ℕ → Progress → Bool
at_end version count i src p =
    leb (length src) (p.nread + 4) || (version == version_nf9 && leb count i)

-- How the loop goes on after a data set.
abbrev pub after_data : SetReading → Progress → ℕ → Run Progress
after_data (read_set records) p setlen =
    finished (record p { data_list = p.data_list ++ records; nread = p.nread + setlen })
after_data set_throws p setlen = run_refused
after_data set_overrun p setlen = run_undefined
after_data endless p setlen = out_of_fuel

abbrev is_template_set : ℕ → Bool
is_template_set setid = leb setid 3

module _ (types : List FieldType) (host_little network : Bool) where
  -- A data set; the container throws if there is no template with its id.
  abbrev pub read_data : ℕ → ℕ → List ℕ → Progress → Option Template → Run Progress
  read_data fuel setlen src p none = run_refused
  read_data fuel setlen src p (some t) =
      after_data (read_data_set fuel host_little network t setlen (drop (p.nread) src) []) p setlen

  -- A set of the message `src`, after its header; `p.nread` is where its body begins.
  unfoldable pub read_set_body : ℕ → ℕ → ℕ → List ℕ → Progress → Run Progress
  unfolding read_template_set read_data_set get_template
  read_set_body fuel setid setlen src p =
      if is_template_set setid
      then run
          (read_template_set types host_little network fuel setid setlen (drop (p.nread) src)
            p.templates)
          (λ m. finished (record p { templates = m; nread = p.nread + setlen }))
      else if ltb 255 setid
      then read_data fuel setlen src p (get_template setid p.templates.entries)
      else finished (record p { nread = p.nread + setlen })

  -- The start of a set, and what is done with it; `go_on` is the rest of the loop.
  unfoldable pub read_one_set : ℕ → List ℕ → (Progress → Run Progress) → Progress → Run Progress
  unfolding read_set_body
  read_one_set fuel src go_on p =
      once (read16 (numbers_high_first host_little network) p.nread src) (λ setid.
        once (read16 (numbers_high_first host_little network) (p.nread + 2) src) (λ setlen.
          if ltb setlen 4
          then go_on (record p { nread = p.nread + 4; last = some (setid, setlen) })
          else if ltb (length src - (p.nread + 4)) (setlen - 4)
          then finished (record p { nread = p.nread + 4; last = some (setid, setlen - 4) })
          else run
              (read_set_body fuel setid (setlen - 4) src
                (record p { nread = p.nread + 4; last = some (setid, setlen - 4) }))
              go_on))

  -- The loop over the sets, with fuel for its rounds and for those of the inner loops.
  unfoldable pub read_sets : ℕ → ℕ → ℕ → ℕ → ℕ → List ℕ → Progress → Run Progress
  unfolding read_one_set
  read_sets zero fuel version count i src p =
      if at_end version count i src p then finished p else out_of_fuel
  read_sets (suc rounds) fuel version count i src p =
      let next = read_one_set fuel src (λ q. read_sets rounds fuel version count (suc i) src q) p in
      if at_end version count i src p then finished p else next

-- The members of the current data set, for a last set that is one. Without any set the source reads
-- variables that were not set; here nothing is changed.
abbrev pub current_set : Option (ℕ × ℕ) → ℕ → Header → Header
current_set none nread h = h
current_set (some (setid, setlen)) nread h =
    if ltb 255 setid
    then record h { cs_tid = setid; cs_bytes = setlen; cs_offset = nread - setlen }
    else h

-- The message at the end of the import.
abbrev pub imported_message : List FieldType → Bool → Progress → Header → Message
imported_message types network p h = record {
  message = some (current_set p.last p.nread (record h { nrecords = length p.data_list }));
  g_ipfix_fields = types;
  g_lasttid = p.templates.g_lasttid;
  data_list = p.data_list;
  encode_network = network;
  require_output = false;
}

abbrev pub after_copy : List FieldType → Bool → Progress → Copied → Run (Message × ℕ)
after_copy types network p (copied h) =
    finished
      (imported_message types network p (record h { templates = p.templates.entries }), p.nread)
after_copy types network p not_enough = run_refused
after_copy types network p overflow = run_undefined

-- What follows the loop: the message is copied into the buffer.
unfoldable pub finish_import :
    List FieldType → Bool → List ℕ → Header → Progress → Run (Message × ℕ)
unfolding copy_raw_message
finish_import types network src h p = after_copy types network p (copy_raw_message src p.nread h)

abbrev pub header_bytes : ℕ → ℕ
header_bytes version = if version == version_nf9 then 20 else 16

-- Where the loop over the sets begins.
abbrev pub first_set : ℕ → Progress
first_set version = record {
  templates = record { entries = []; g_lasttid = 255 };
  data_list = [];
  nread = header_bytes version;
  last = none;
}

-- mnslp_ipfix_import, with the number of bytes that it reads. A template that a data set names is
-- there or the container throws, so the branch for a missing one is never taken.
unfoldable pub mnslp_ipfix_import : ℕ → Bool → Bool → List ℕ → Run (Message × ℕ)
mnslp_ipfix_import fuel host_little network src =
    if ltb (length src) 2
    then run_refused
    else once (parse_hdr (numbers_high_first host_little network) src) (λ h.
      run
        (read_sets h.1 host_little network fuel fuel h.0.version h.0.count 0 src
          (first_set h.0.version))
        (λ p. finish_import h.1 network src h.0 p))
