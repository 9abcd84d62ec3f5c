-- ===== src/Tests.antt =====
-- A small network: addresses and specifications are numbers, routing information is a direction.
mod Messages
mod Rules
mod Initiator
mod Responder
mod Forwarder
mod Sessions
mod Wire
mod Ipfix
mod Netmate
mod Import
use m_nslp.Prelude.{ℕ, suc, Bool, true, false, not, Option, none, some, List, [], ◌∷◌, ◌==◌}
use m_nslp.Platform.{Platform, Flow}
use m_nslp.Msg.Code
use m_nslp.Msg.ObjectType
use m_nslp.Msg.Object.{mandatory, msg_sequence_number, session_lifetime, information_code}
use m_nslp.Msg.Message.{Message, configure, refresh, response, unique_key}
use m_nslp.Msg.Message.Laws.{configure_store}
use m_nslp.Msg.Ntlp.{NtlpMsg}
use m_nslp.Rule.{PolicyRule}
use m_nslp.Rule.Nop.{nop_install, nop_remove}
use m_nslp.Node.{Node}
use m_nslp.Node.Monad.{World, ok}

abbrev pub flow : Flow ℕ
flow = record {
  source_address = 1;
  source_prefix = 32;
  source_port = 1000;
  dest_address = 2;
  dest_prefix = 32;
  dest_port = 2000;
  protocol = 17;
  flow_label = 0;
  ds_field = 0;
  spi = 0;
  downstream = true;
}

abbrev pub net : Platform
net = record {
  Address = ℕ;
  Mri = Bool;
  Mspec = ℕ;
  invert = not;
  path_coupled? = λ mri. some flow;
  path_coupled = λ f. true;
  not_equal = λ a b. not (a == b);
  unparse = λ key. key ∷ [];
}

-- A node that meters.
abbrev pub node : Node net
node = record {
  is_authorized = λ m. true;
  installer = record {
    check = λ x. true;
    install = λ r. ok (nop_install r);
    remove = λ r. ok (nop_remove r);
  };
  timer_id = suc;
  rule_key = λ i. i;
  session_id = suc;
  first_msn = λ i. 7;
  jitter = λ i r. r;
  is_ms_meter = true;
  ni_response_timeout = 2;
  ni_max_retries = 3;
  ni_msg_hop_count = 10;
  nf_max_session_lifetime = 120;
  nr_max_session_lifetime = 120;
}

abbrev pub start : World net
start = record { timers = 0; keys = 0; draws = 0; ids = 0; log = [] }

abbrev pub request : Message net
request = record { kind = configure; objects = configure_store net 60 7 1 10 [] }

-- A REFRESH for a lifetime and a sequence number.
abbrev pub refresh_for : ℕ → ℕ → Message net
refresh_for lifetime msn = record {
  kind = refresh;
  objects =
      (unique_key ObjectType.msg_sequence_number, mandatory (msg_sequence_number msn))
      ∷ (unique_key ObjectType.session_lifetime, mandatory (session_lifetime lifetime))
      ∷ [];
}

-- A success response to a sequence number.
abbrev pub success_for : ℕ → Message net
success_for msn = record {
  kind = response;
  objects =
      (
        unique_key ObjectType.information_code,
        mandatory (information_code Code.sc_success Code.suc_successfully_processed 0),
      )
      ∷ (unique_key ObjectType.msg_sequence_number, mandatory (msg_sequence_number msn))
      ∷ [];
}

abbrev pub packet : Message net → NtlpMsg net
packet body = record { session_id = 5; body = some body; mri = true; sii_handle = 3 }

-- A rule with one object that is installed.
abbrev pub installed : PolicyRule net
installed = record { objects = (1, 4) ∷ []; rule_keys = (1, (49 ∷ []) ∷ []) ∷ [] }
