-- ===== src/Msg/ObjectType.antt =====
-- The OBJECT_TYPE constants of include/msg.
use m_nslp.Prelude.{ℕ}

abbrev pub information_code : ℕ
information_code = 0x00F4

abbrev pub selection_metering_entities : ℕ
selection_metering_entities = 0x00F5

abbrev pub message_hop_count : ℕ
message_hop_count = 0x00F6

abbrev pub msg_sequence_number : ℕ
msg_sequence_number = 0x00F7

abbrev pub session_lifetime : ℕ
session_lifetime = 0x00F8

abbrev pub ipfix_message : ℕ
ipfix_message = 0x00F9
