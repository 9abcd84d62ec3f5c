-- ===== src/Msg/Code.antt =====
-- Severity classes and response codes of include/msg/information_code.h.
use m_nslp.Prelude.{ℕ}

abbrev pub sc_informational : ℕ
sc_informational = 1

abbrev pub sc_success : ℕ
sc_success = 2

abbrev pub sc_protocol_error : ℕ
sc_protocol_error = 3

abbrev pub sc_permanent_failure : ℕ
sc_permanent_failure = 5

abbrev pub sc_signaling_session_failures : ℕ
sc_signaling_session_failures = 6

abbrev pub suc_successfully_processed : ℕ
suc_successfully_processed = 1

abbrev pub fail_authentication_failed : ℕ
fail_authentication_failed = 1

abbrev pub fail_internal_error : ℕ
fail_internal_error = 4

abbrev pub fail_nr_not_reached : ℕ
fail_nr_not_reached = 7

abbrev pub fail_configuration_failed : ℕ
fail_configuration_failed = 9

abbrev pub sigfail_lifetime_too_big : ℕ
sigfail_lifetime_too_big = 2

abbrev pub sigfail_wrong_conf_message : ℕ
sigfail_wrong_conf_message = 7

abbrev pub sigfail_rule_action_not_applicable : ℕ
sigfail_rule_action_not_applicable = 6

abbrev pub sigfail_filter_action_not_applicable : ℕ
sigfail_filter_action_not_applicable = 8

abbrev pub sigfail_metering_connection_broken : ℕ
sigfail_metering_connection_broken = 9
