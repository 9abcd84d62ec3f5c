-- ===== src/Tests/Wire.antt =====
-- The laws of the wire format at concrete values. A buffer is a list of bytes in network order,
-- and a specification is one byte.
use m_nslp.Prelude.{
  ℕ, ◌+◌, ◌*◌, ◌/◌, ◌%◌, ◌<◌, ◌≡◌, ◌≢◌, refl, Bool, true, false, not, Option, none, some, inr, ap,
  List, [], ◌∷◌, ◌++◌, length, arith,
}
use m_nslp.Msg.Object.{
  Object, mandatory, session_lifetime, tr_mandatory, ipfix_message, tr_optional,
}
use m_nslp.Msg.Message.{Message, configure, refresh}
use m_nslp.Msg.Message.Laws.{build}
use m_nslp.Msg.Ntlp.{create_response}
use m_nslp.Wire.{
  NetMsg, IsNetMsg, Import, read_as, bad_import, Codec, IsReadable, reread, undefined,
}
use m_nslp.Platform.{Platform}
use m_nslp.Ipfix.Message.{Message as Specification}
use m_nslp.Ipfix.Header.{empty_header}
use m_nslp.Ipfix.Read.{once, mnslp_ipfix_import, finish_import}
use m_nslp.Ipfix.Table.Finding.{standard_types}
use m_nslp.Wire.Ipfix.{exported, import_specification, ipfix_codec}
use m_nslp.Tests.Import.{short_message, parse_test, read_test}
use m_nslp.Wire.Object.{lifetime_class, mspec_class, object_bytes, class_of, extract_object_type}
use m_nslp.Wire.Message.{serialize_message, receive, delivered, aborted, kind_of, extract_msg_type}
use m_nslp.Wire.Message.RoundTrip.{Delivers, configure_roundtrip}
use m_nslp.Wire.Message.Reading.{Handled, receive-Handled}
use m_nslp.Wire.Message.First.{message_header, object_header}
use m_nslp.Wire.Message.Malformed.{
  short_object_aborts, broken_specification_aborts, malformed_refused, duplicate_refused,
}
use m_nslp.Wire.Message.ErrorResponse.{error_response_undefined}
use m_nslp.Tests.{net, flow, packet, request}

abbrev read_bytes : List ℕ → Option (ℕ × List ℕ)
read_bytes (a ∷ b ∷ c ∷ d ∷ rest) = some (a * 0x100_0000 + b * 0x1_0000 + c * 0x100 + d, rest)
read_bytes _ = none

abbrev buffer : NetMsg
buffer = record {
  word8 = λ n. n % 256 ∷ [];
  word16 = λ n. n / 256 % 256 ∷ n % 256 ∷ [];
  word32 = λ n. n / 0x100_0000 % 256 ∷ n / 0x1_0000 % 256 ∷ n / 256 % 256 ∷ n % 256 ∷ [];
  read32 = read_bytes;
}

four_bytes :
    (n : ℕ)
    → n < 0x1_0000_0000
    → n / 0x100_0000 % 256 * 0x100_0000
        + n / 0x1_0000 % 256 * 0x1_0000
        + n / 256 % 256 * 0x100
        + n % 256
      ≡ n
four_bytes n h = omega arith

fields :
    (a b c : ℕ)
    → a < 256
    → b < 256
    → c < 65536
    → buffer.word8 a ++ buffer.word8 b ++ buffer.word16 c
      ≡ buffer.word32 (a * 0x100_0000 + b * 0x1_0000 + c)
fields a b c h k l = ground arith

short : (src : List ℕ) → length src < 4 → read_bytes src ≡ none
short [] h = refl
short (a ∷ []) h = refl
short (a ∷ b ∷ []) h = refl
short (a ∷ b ∷ c ∷ []) h = refl
short (a ∷ b ∷ c ∷ d ∷ rest) h = absurd (omega arith)

left :
    (src : List ℕ) (n : ℕ) (rest : List ℕ)
    → read_bytes src ≡ some (n, rest)
    → (word : List ℕ) × (length word ≡ 4) × (src ≡ word ++ rest)
left [] n rest h = absurd (ground arith)
left (a ∷ []) n rest h = absurd (ground arith)
left (a ∷ b ∷ []) n rest h = absurd (ground arith)
left (a ∷ b ∷ c ∷ []) n rest h = absurd (ground arith)
left (a ∷ b ∷ c ∷ d ∷ src) n rest h = (a ∷ b ∷ c ∷ d ∷ [], refl, ground arith)

buffer-IsNetMsg : IsNetMsg buffer
buffer-IsNetMsg = record {
  length_word32 = λ n. refl;
  read_word32 = λ n rest h. ap (λ k. some (k, rest)) (four_bytes n h);
  word32_fields = fields;
  read_short = short;
  read_left = left;
}

abbrev import_byte : List ℕ → Import ℕ
import_byte [] = bad_import
import_byte (b ∷ bs) = read_as b 1

abbrev codec : Codec ℕ
codec = record { content = λ x. x ∷ []; import_body = import_byte }

-- The network with the program's own specifications, and how they stand on the wire.
abbrev ipfix_net : Platform
ipfix_net = record {
  Address = ℕ;
  Mri = Bool;
  Mspec = Specification;
  invert = not;
  path_coupled? = λ mri. some flow;
  path_coupled = λ f. true;
  not_equal = λ a b. false;
  unparse = λ key. key ∷ [];
}

-- A specification that was imported from 24 bytes.
abbrev specification : Specification
specification = record {
  message = some (record empty_header {
    sourceid = 3;
    length = 33;
    exporttime = 1;
    seqno = 2;
    buffer = short_message;
    offset = 24;
  });
  g_ipfix_fields = standard_types;
  g_lasttid = 255;
  data_list = [];
  encode_network = true;
  require_output = false;
}

specification_import : import_specification true true short_message ≡ read_as specification 24
unfolding import_specification mnslp_ipfix_import finish_import
specification_import = rw (parse_test, once, read_test) refl

specification-IsReadable : IsReadable (ipfix_codec true true) specification
unfolding exported
specification-IsReadable = record {
  not_empty = omega arith;
  fits = omega arith;
  import_content = rw specification_import refl;
}

abbrev optional_mspec : Object net
optional_mspec = record { treatment = tr_optional; body = ipfix_message 9 }

configure_roundtrip_example :
    Delivers ipfix_net buffer
      (ipfix_codec true true)
      (build ipfix_net 60 7 1 10 (specification ∷ specification ∷ []))
      (build ipfix_net 60 7 1 10 (
        reread (ipfix_codec true true) specification
        ∷ reread (ipfix_codec true true) specification
        ∷ []))
configure_roundtrip_example =
    configure_roundtrip ipfix_net buffer (ipfix_codec true true) buffer-IsNetMsg 60 7 1 10
      (specification ∷ specification ∷ []) (omega arith, omega arith, omega arith, omega arith)
      (omega arith) (specification-IsReadable, (specification-IsReadable, tt))

receive-Handled_example :
    Handled {P = ipfix_net}
      (ipfix_codec true true)
      (1 ∷ 0 ∷ 0 ∷ 0 ∷ 0 ∷ 247 ∷ 0 ∷ [])
      (receive ipfix_net buffer (ipfix_codec true true) (1 ∷ 0 ∷ 0 ∷ 0 ∷ 0 ∷ 247 ∷ 0 ∷ []))
receive-Handled_example =
    receive-Handled ipfix_net buffer (ipfix_codec true true) buffer-IsNetMsg
      (1 ∷ 0 ∷ 0 ∷ 0 ∷ 0 ∷ 247 ∷ 0 ∷ [])

no_mspec : lifetime_class ≢ mspec_class
no_mspec e = ground arith

short_object_aborts_example :
    receive net buffer codec (
      message_header buffer configure
      ++ (object_header buffer tr_mandatory lifetime_class 0 ++ 1 ∷ []))
    ≡ some aborted
short_object_aborts_example =
    short_object_aborts net buffer codec buffer-IsNetMsg configure tr_mandatory lifetime_class
      (1 ∷ []) no_mspec (omega arith)

broken_specification_aborts_example :
    receive net buffer codec (
      message_header buffer configure
      ++ (object_header buffer tr_mandatory mspec_class 4 ++ ((9 ∷ 0 ∷ 1 ∷ 0 ∷ []) ++ [])))
    ≡ some aborted
broken_specification_aborts_example =
    broken_specification_aborts net buffer codec buffer-IsNetMsg configure tr_mandatory
      (9 ∷ 0 ∷ 1 ∷ 0 ∷ []) (omega arith) refl (inr (9, 1, refl, refl))

malformed_refused_example :
    (length {A = ℕ} (1 ∷ []) < 4 → receive net buffer codec (1 ∷ []) ≡ some (delivered none))
    × (kind_of (extract_msg_type 0) ≡ none
        → receive net buffer codec (buffer.word32 0 ++ 1 ∷ []) ≡ some (delivered none))
    × (receive net buffer codec (message_header buffer refresh ++ []) ≡ some (delivered none))
    × (class_of (extract_object_type 0) ≡ none
        → receive net buffer codec (message_header buffer refresh ++ (buffer.word32 0 ++ 1 ∷ []))
          ≡ some (delivered none))
malformed_refused_example =
    malformed_refused net buffer codec buffer-IsNetMsg refresh 0 (1 ∷ []) (omega arith)

abbrev lifetime_object : ℕ → Object net
lifetime_object n = mandatory (session_lifetime n)

duplicate_refused_example :
    receive net buffer codec (
      message_header buffer refresh
      ++ (object_bytes net buffer codec (lifetime_object 30)
          ++ (object_bytes net buffer codec (lifetime_object 60) ++ [])))
    ≡ some (delivered none)
duplicate_refused_example =
    duplicate_refused net buffer codec buffer-IsNetMsg refresh (lifetime_object 30)
      (lifetime_object 60) [] (omega arith) (omega arith) refl refl refl

error_response_undefined_example :
    (resp : Message net) × ((create_response 4 1 (packet request)).body ≡ some resp)
    × (serialize_message net buffer codec resp ≡ undefined)
error_response_undefined_example =
    error_response_undefined net buffer codec (packet request) 4 1 (omega arith)
