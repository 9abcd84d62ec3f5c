-- ===== src/Dispatcher.antt =====
-- src/dispatcher.cpp: what becomes of an event. The state is the table of the sessions.
pub mod Sessions
pub mod Roles
use m_nslp.Prelude.{ℕ, suc, Bool, true, false, Option, none, some, List, ◌∷◌, length, if◌then◌else◌}
use m_nslp.Platform.{Platform}
use m_nslp.Map.{assign}
use m_nslp.Msg.Code
use m_nslp.Msg.Message.{configure}
use m_nslp.Msg.Ntlp.{NtlpMsg, create_response}
use m_nslp.Event.{Body, Event, msg, routing_state_check, api_configure, get_message, is_invalid}
use m_nslp.Node.{Node, send_message}
use m_nslp.Node.Monad.{
  M, Ctx, World, Outcome, ok, thrown, fault, accepted_query, assertion_failed, null_pointer, ◌>>=◌,
  ◌>>◌, pure, stop, act,
}
use m_nslp.Manager.{
  AnySession, ni, nf, nr, Table, is_final, create_unique_id, create_ni_session, create_nf_session,
  create_nr_session, get_session, remove_session,
}
use m_nslp.Session.Ni.Machine
use m_nslp.Session.Nf.Refreshing
use m_nslp.Session.Nr.Machine as NrMachine

-- The session that create_session returns, its id, and the table and the record with it.
abbrev pub Created : Platform → Type 0
Created P = Option ((ℕ × AnySession P) × Ctx P (Table P))

module _ {P : Platform} where
  -- session::process, which calls the virtual process_event with the session's mutex held.
  unfoldable pub process_session :
      Node P → Body P → AnySession P → World P → Outcome (Unit {0}) × (AnySession P × World P)
  process_session d b (ni s) w =
      let r = Machine.process_event d b (record { self = s; world = w }) in
      (r.0, (ni (r.1.self), r.1.world))
  process_session d b (nf s) w =
      let r = Refreshing.process_event d b (record { self = s; world = w }) in
      (r.0, (nf (r.1.self), r.1.world))
  process_session d b (nr s) w =
      let r = NrMachine.process_event d b (record { self = s; world = w }) in
      (r.0, (nr (r.1.self), r.1.world))

  -- The new session id of an initiator. The search may make one draw more
  -- than the table has sessions, which is enough if these ids differ; else it may end here where the
  -- source draws again.
  unfoldable pub create_initiator : Node P → Ctx P (Table P) → Created P
  create_initiator d c =
      elim (create_unique_id (suc (length c.self)) d.session_id c.world.ids c.self) [
        | none ↦ none
        | some found ↦
            let made = create_ni_session d (found.0) (d.first_msn (found.1)) c.self in
            some (
              (found.0, made.0),
              record { self = made.1; world = record (c.world) { ids = found.1 } },
            )
      ]

  -- create_session. An event of another kind creates none.
  unfoldable pub create_session : Node P → Event P → Ctx P (Table P) → Created P
  create_session d e c = elim (e.body) [
    | api_configure a ↦ create_initiator d c
    | msg m own ↦ elim (e.session_id) [
      | none ↦ none
      | some id ↦ elim (get_message configure (msg m own)) [
        | none ↦ none
        | some r ↦
            let made = if own then create_nr_session d id c.self else create_nf_session id c.self in
            some ((id, made.0), record c { self = made.1 })
      ]
    ]
    | _ ↦ none
  ]

  -- A session processes an event. It stands in the table under its id, which never changes. An
  -- exception aborts it, and it is removed when it is final.
  unfoldable pub run_session : Node P → Body P → ℕ → AnySession P → M P (Table P) (Unit {0})
  run_session d b id s c =
      let r = process_session d b s c.world in
      let keep = assign id (r.1.0) c.self in
      elim (r.0) [
        | ok _ ↦ (
          ok tt,
          record {
            self = if is_final (r.1.0) then remove_session id keep else keep;
            world = r.1.1;
          },
        )
        | thrown _ ↦ (ok tt, record { self = remove_session id keep; world = r.1.1 })
        | fault f ↦ (fault f, record { self = keep; world = r.1.1 })
      ]

  -- An event that no session takes is discarded.
  unfoldable pub run_created :
      Node P → Body P → Ctx P (Table P) → Created P → Outcome (Unit {0}) × Ctx P (Table P)
  run_created d b c none = (ok tt, c)
  run_created d b c (some (entry, after)) = run_session d b (entry.0) (entry.1) after

  unfoldable pub deliver : Node P → Event P → M P (Table P) (Unit {0})
  deliver d e c = elim (e.session_id) [
    | none ↦ run_created d e.body c (create_session d e c)
    | some id ↦ elim (get_session id c.self) [
      | some s ↦ run_session d e.body id s c
      | none ↦ run_created d e.body c (create_session d e c)
    ]
  ]

  -- send_receive_answer, which goes through the pointers to the session id and to the MRI.
  unfoldable pub send_receive_answer : Option ℕ → Option P.Mri → M P (Table P) (Unit {0})
  send_receive_answer none mri = stop null_pointer
  send_receive_answer (some id) none = stop null_pointer
  send_receive_answer (some id) (some mri) = act (accepted_query id)

  unfoldable pub refuse_invalid : NtlpMsg P → M P (Table P) (Unit {0})
  refuse_invalid m = send_message (create_response Code.sc_protocol_error 0 m)

  -- process. A message without session id fails an assertion.
  unfoldable pub process : Node P → Event P → M P (Table P) (Unit {0})
  process d e = elim (e.body) [
    | routing_state_check mri ↦ send_receive_answer e.session_id mri
    | msg m own ↦ elim (e.session_id) [
      | none ↦ stop assertion_failed
      | some id ↦ if is_invalid (msg m own) then refuse_invalid m else deliver d e
    ]
    | _ ↦ deliver d e
  ]
