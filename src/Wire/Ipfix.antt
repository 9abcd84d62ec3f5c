-- ===== src/Wire/Ipfix.antt =====
-- The metering specification of the program on the wire: the functions of
-- src/msg/mnslp_ipfix_message.cpp that its `serialize_body` and `deserialize_body` call.
use m_nslp.Prelude.{ℕ, Bool, none, some, List, [], length, if◌then◌else◌}
use m_nslp.Wire.{Import, read_as, bad_import, lost, Codec}
use m_nslp.Wire.Object.{take}
use m_nslp.Ipfix.Message.{Message}
use m_nslp.Ipfix.Read.{Run, finished, run_refused, run_undefined, out_of_fuel, mnslp_ipfix_import}

-- get_message, up to get_offset.
unfoldable pub exported : Message → List ℕ
exported m = elim (m.message) [
  | none ↦ []
  | some h ↦ if m.require_output then [] else take h.offset h.buffer
]

-- How an import ends for its caller.
abbrev after_import : Run (Message × ℕ) → Import Message
after_import (finished (m, num_read)) = read_as m num_read
after_import run_refused = bad_import
after_import run_undefined = lost
after_import out_of_fuel = lost

-- The import of a body, with as much fuel as it has bytes: a data set that is not read within as many
-- rounds has a record that takes no byte, and then every round is the same.
unfoldable pub import_specification : Bool → Bool → List ℕ → Import Message
import_specification host_little network body =
    after_import (mnslp_ipfix_import (length body) host_little network body)

abbrev pub ipfix_codec : Bool → Bool → Codec Message
ipfix_codec host_little network = record {
  content = exported;
  import_body = λ body. import_specification host_little network body;
}
