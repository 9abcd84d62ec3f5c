-- ===== src/Netmate/Meter.antt =====
-- How the installer talks to the meter: execute_command of
-- src/netmate_ipfix_policy_rule_installer.cpp. The answers of libcurl are a parameter.
use m_nslp.Prelude.{ℕ, List, ◌∷◌, ◌++◌, Option, none, some}
use m_nslp.Msg.Code
use m_nslp.Node.Monad.{Outcome, ok, thrown, fault, installer_error, null_pointer}
use m_nslp.Rule.{Name}
use m_nslp.Ipfix.Print.{FloatText}
use m_nslp.Netmate.Names.{codes, decimal}
use m_nslp.Netmate.Application.{Applications}
use m_nslp.Netmate.Action.{Actions}

-- What the installer reads of mnslp_config, and the two containers that `setup` loads; a container
-- that was not loaded is NULL.
pub record Config : Type 0 where
  pub metering_application : Name
  pub metering_server : Name
  pub metering_port : ℕ
  pub user : Name
  pub password : Name
  pub export_directory : Name
  pub app_container : Option Applications
  pub action_container : Option Actions
  -- The printing of floating point numbers by the C library.
  pub float_text : FloatText

-- The options of a transfer; the fields are those before `curl_escape`.
pub record Request : Type 0 where
  pub url : Name
  pub userpwd : Name
  pub post_fields : Name

-- How libcurl ends: no handle is made, the transfer fails, a call of curl_easy_getinfo fails, or
-- there is an answer with its status code and its content type, which may be missing.
pub data Answer : Type 0 where
  no_handle transfer_failed no_content_info no_code_info : Answer
  answered : ℕ → Option Name → Answer

-- What libcurl does with a request, after the requests that were made before it, newest first.
abbrev pub Meter : Type 0
Meter = List Request → Request → Answer

-- The exception of a broken connection.
abbrev pub connection_broken : Outcome (Unit {0})
connection_broken =
    thrown
      (installer_error Code.sc_signaling_session_failures Code.sigfail_metering_connection_broken)

unfoldable pub request_of : Config → Name → Name → Request
request_of cfg action post_fields = record {
  url = codes "http://" ++ (cfg.metering_server ++ (b':' ∷ (decimal cfg.metering_port ++ action)));
  userpwd = cfg.user ++ (b':' ∷ cfg.password);
  post_fields = post_fields;
}

-- The end of execute_command, after the transfer. The status code is fetched and not looked at; the
-- content type is read through its pointer. The callers do not use the value that is missing at the
-- end, and the function is taken to return.
unfoldable pub after_transfer : Answer → Outcome (Unit {0})
after_transfer (answered code (some content_type)) = ok tt
after_transfer (answered code none) = fault null_pointer
after_transfer _ = connection_broken

-- execute_command, with the requests that were made.
unfoldable pub execute_command :
    Config → Meter → Name → Name → List Request → Outcome (Unit {0}) × List Request
unfolding after_transfer request_of
execute_command cfg meter action post_fields sent =
    elim (meter sent (request_of cfg action post_fields)) [
      | no_handle ↦ (connection_broken, sent)
      | transfer_failed ↦ (after_transfer transfer_failed, request_of cfg action post_fields ∷ sent)
      | no_content_info ↦ (after_transfer no_content_info, request_of cfg action post_fields ∷ sent)
      | no_code_info ↦ (after_transfer no_code_info, request_of cfg action post_fields ∷ sent)
      | answered code content_type ↦
          (after_transfer (answered code content_type), request_of cfg action post_fields ∷ sent)
    ]
