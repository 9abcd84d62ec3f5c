-- ===== src/Session/Nr.antt =====
-- src/nr_session.cpp: the session of a responder, and its CLOSE state.
pub mod Machine
pub mod Bounds
pub mod Lifetime
pub mod Refresh
pub mod Opening
use m_nslp.Prelude.{ℕ, Bool, true, false, Option, none, some, List, [], ◌∷◌, ◌==◌, if◌then◌else◌}
use m_nslp.Platform.{Platform}
use m_nslp.Msg.Code
use m_nslp.Msg.Message.{
  Message, get_session_lifetime, get_msg_sequence_number, get_selection_metering_entities,
  get_mspec_objects,
}
use m_nslp.Msg.Ntlp.{NtlpMsg, create_response, create_success_response}
use m_nslp.Rule.{PolicyRule, no_rule, get_number_mspec_objects}
use m_nslp.Node.{Node, send_message, start_timer, install_policy_rules, remove_installed}
use m_nslp.Node.Monad.{
  M, Ctx, Outcome, ok, fault, request_error, null_pointer, ◌>>=◌, ◌>>◌, pure, throw, get_self,
  put_self,
}
use m_nslp.Session.{
  st_receiver, check_participating, Placed, place, send_error, accept, refuse, check_preconditions,
}

pub data State : Type 0 where
  close pending metering : State

-- A timer is its id, 0 if it is stopped.
pub record Nr (P : Platform) : Type 0 where
  pub id : ℕ
  pub msn : ℕ
  pub rule : PolicyRule P
  pub state : State
  pub lifetime : ℕ
  pub max_lifetime : ℕ
  pub state_timer : ℕ

module _ {P : Platform} where
  -- The constructor.
  unfoldable pub new_nr_session : Node P → ℕ → Nr P
  new_nr_session d id = record {
    id = id;
    msn = 0;
    rule = no_rule;
    state = close;
    lifetime = 0;
    max_lifetime = d.nr_max_session_lifetime;
    state_timer = 0;
  }

  unfoldable pub place_for : Node P → Message P → List P.Mspec → Ctx P (Nr P) → Placed P
  place_for d m objects c =
      place d (check_participating st_receiver (get_selection_metering_entities m)) objects
        c.world.keys c.self.rule

  unfoldable pub place_objects : Node P → Message P → M P (Nr P) (List P.Mspec)
  place_objects d m c = elim (get_mspec_objects m) [
    | none ↦ (fault null_pointer, c)
    | some objects ↦
        let p = place_for d m objects c in
        (
          ok p.missing,
          record {
            self = record (c.self) { rule = p.rule };
            world = record (c.world) { keys = p.keys };
          },
        )
  ]

  -- save_mt_policy_rule, for the routing information of the event and its CONFIGURE. It returns
  -- the missing objects.
  unfoldable pub save_mt_policy_rule : Node P → P.Mri → Message P → M P (Nr P) (List P.Mspec)
  save_mt_policy_rule d mri m = elim (P.path_coupled? mri) [
    | none ↦ throw (request_error Code.sc_permanent_failure Code.fail_configuration_failed)
    | some _ ↦ place_objects d m
  ]

  unfoldable pub start_state_timer : Node P → ℕ → M P (Nr P) (Unit {0})
  start_state_timer d seconds = do
    i ← start_timer d seconds
    s ← get_self
    put_self (record s { state_timer = i })

  -- Not every object could be installed.
  unfoldable pub abandon : Node P → NtlpMsg P → PolicyRule P → M P (Nr P) State
  abandon d m result = do
    s ← get_self
    put_self (record s { lifetime = 0; rule = result })
    remove_installed d result
    send_message (create_response Code.sc_permanent_failure Code.fail_internal_error m)
    pure close

  unfoldable pub begin_metering : Node P → NtlpMsg P → ℕ → PolicyRule P → M P (Nr P) State
  begin_metering d m lifetime result = do
    s ← get_self
    put_self (record s { rule = result })
    send_message (create_success_response lifetime m)
    start_state_timer d lifetime
    pure metering

  unfoldable pub settle : Node P → NtlpMsg P → ℕ → PolicyRule P → M P (Nr P) State
  settle d m lifetime result = do
    s ← get_self
    if get_number_mspec_objects result == get_number_mspec_objects s.rule
        then begin_metering d m lifetime result
        else abandon d m result

  unfoldable pub install_rule : Node P → NtlpMsg P → ℕ → M P (Nr P) State
  install_rule d m lifetime = do
    s ← get_self
    result ← install_policy_rules d s.rule
    settle d m lifetime result

  unfoldable pub install_placed : Node P → NtlpMsg P → ℕ → List P.Mspec → M P (Nr P) State
  install_placed d m lifetime [] = install_rule d m lifetime
  install_placed d m lifetime (x ∷ missing) = do
    send_message (create_response Code.sc_permanent_failure Code.fail_internal_error m)
    pure close

  -- The CONFIGURE passed the checks with a lifetime that is not 0.
  unfoldable pub initiate : Node P → NtlpMsg P → Message P → ℕ → M P (Nr P) State
  initiate d m c lifetime = do
    s ← get_self
    put_self (record s { lifetime = lifetime; msn = get_msg_sequence_number c })
    missing ← save_mt_policy_rule d m.mri c
    install_placed d m lifetime missing

  unfoldable pub open_request : Node P → NtlpMsg P → Message P → M P (Nr P) State
  open_request d m c = do
    s ← get_self
    elim (check_preconditions d m (get_session_lifetime c) s.max_lifetime) [
      | refuse e ↦ (do send_error e m; pure close)
      | accept lifetime ↦
          if lifetime == 0
          then (do
            send_message
                (create_response Code.sc_permanent_failure Code.fail_configuration_failed m)
            pure close)
          else initiate d m c lifetime
    ]
