-- ===== src/Session/Ni/Metering.antt =====
-- An initiator that meters: what stops the program, and how the user ends the session.
use m_nslp.Prelude.{ℕ, ◌≡◌, ◌≢◌, refl, ap, ◌∙◌, true, false, none, some, ◌∷◌, arith}
use m_nslp.Platform.{Platform}
use m_nslp.Msg.Serial.{next_msn}
use m_nslp.Msg.Message.{
  Message, refresh, empty, get_session_lifetime, get_msg_sequence_number, set_session_lifetime,
  set_msg_sequence_number, check_refresh, get_object,
}
use m_nslp.Msg.Store.{get, set}
use m_nslp.Msg.Ntlp.{NtlpMsg}
use m_nslp.Event.{Body, api_teardown, is_timer, is_api_teardown, matching_response}
use m_nslp.Node.{Node, is_sendable}
use m_nslp.Node.Monad.{Ctx, sent, ok, fault, assertion_failed}
use m_nslp.Session.Ni.{Ni, close, pending, metering, refresh_message}
use m_nslp.Session.Ni.Machine.{
  process_event, handle_state, handle_state_pending, handle_state_metering, metering_response,
  teardown_metering, teardown_pending, take_lifetime,
}
use m_nslp.Node.Removing.{Removes, after_removal}
use m_nslp.Session.Ni.Opening.{opening, metering_needs_rule}

module _ {P : Platform} where
  -- In METERING, before the first REFRESH was sent, every event but a timer and a teardown
  -- fails the assertion that there is a stored REFRESH.
  metering_aborts :
      (d : Node P) (b : Body P) (c : Ctx P (Ni P))
      → c.self.state ≡ metering
      → c.self.last_refresh ≡ none
      → is_timer b ≡ false
      → is_api_teardown b ≡ false
      → (process_event d b c).0 ≡ fault assertion_failed
  unfolding process_event handle_state handle_state_metering metering_response
  metering_aborts d b c m n t a = ground arith

  is_response :
      (b : Body P) (m : NtlpMsg P) (resp : Message P)
      → matching_response b m ≡ some resp
      → (is_timer b ≡ false) × (is_api_teardown b ≡ false)
  unfolding matching_response
  is_response b m resp e = ground arith

  opening-last_refresh :
      (d : Node P) (resp : Message P) (c : Ctx P (Ni P))
      → (opening d resp c).last_refresh ≡ c.self.last_refresh
  unfolding take_lifetime
  opening-last_refresh d resp c = ground arith

  -- The event that lets a pending session meter, which is a response to its CONFIGURE, stops the
  -- program with a failed assertion when it arrives a second time, if no REFRESH was sent before.
  pub repeated_response_aborts :
      (d : Node P) (b : Body P) (c c' : Ctx P (Ni P))
      → process_event d b c ≡ (ok tt, c')
      → c.self.state ≡ pending
      → c.self.last_refresh ≡ none
      → c'.self.state ≡ metering
      → (process_event d b c').0 ≡ fault assertion_failed
  repeated_response_aborts d b c c' e p n h =
      let (was, (after, (m, resp, stored, match, success, inst), is)) =
        metering_needs_rule d b c c' e (λ q. cc) h in
      let none_yet : c'.self.last_refresh ≡ none =
        ap (λ t. t.last_refresh) is
        ∙ ap (λ t. t.last_refresh) (inst.3)
        ∙ opening-last_refresh d resp c
        ∙ n in
      metering_aborts d b c' h none_yet (is_response b m resp match).0
        (is_response b m resp match).1

  refresh-sendable : (s : Ni P) → is_sendable (some (refresh_message s)) ≡ true
  unfolding is_sendable refresh_message set_session_lifetime set_msg_sequence_number set
      check_refresh get_object get
  refresh-sendable s = refl

  -- The REFRESH with lifetime 0 and a sequence number, and the message with it.
  abbrev pub farewell_body : ℕ → Message P
  farewell_body msn = set_msg_sequence_number msn (set_session_lifetime 0 (empty refresh))

  abbrev pub farewell : Ni P → P.Mri → NtlpMsg P
  farewell s mri = record {
    session_id = s.id;
    body = some (farewell_body (next_msn s.msn));
    mri = mri;
    sii_handle = 0;
  }

  farewell_values :
      (s : Ni P)
      → (get_session_lifetime (farewell_body (next_msn s.msn)) ≡ 0)
        × (get_msg_sequence_number (farewell_body (next_msn s.msn)) ≡ next_msn s.msn)
  unfolding set_session_lifetime set_msg_sequence_number set get_session_lifetime
      get_msg_sequence_number get
  farewell_values s = (refl, refl)

  farewell-refresh_message :
      (s : Ni P)
      → refresh_message (record s { lifetime = 0; msn = next_msn s.msn })
        ≡ farewell_body (next_msn s.msn)
  unfolding refresh_message
  farewell-refresh_message s = refl

  teardown_pending_lem :
      (d : Node P) (c : Ctx P (Ni P)) (mri : P.Mri)
      → c.self.mri ≡ some mri
      → Removes d c.self.rule
      → let r = teardown_pending d c in
        (r.0 ≡ ok close)
        × (r.1.world.log ≡ sent (farewell c.self mri) ∷ (after_removal c.self.rule c.world).log)
  unfolding teardown_pending
  teardown_pending_lem d c mri e rem = ground (
    arith,
    refresh-sendable (record (c.self) { lifetime = 0; msn = next_msn (c.self.msn) }),
    farewell-refresh_message c.self,
  )

  teardown_metering_lem :
      (d : Node P) (c : Ctx P (Ni P)) (mri : P.Mri)
      → c.self.mri ≡ some mri
      → Removes d c.self.rule
      → let r = teardown_metering d c in
        (r.0 ≡ ok close)
        × (r.1.world.log ≡ sent (farewell c.self mri) ∷ (after_removal c.self.rule c.world).log)
  unfolding teardown_metering
  teardown_metering_lem d c mri e rem = ground (
    arith,
    refresh-sendable (record (c.self) { lifetime = 0; msn = next_msn (c.self.msn) }),
    farewell-refresh_message c.self,
  )

  -- The user's teardown of a session that is pending or meters closes it. The rule is removed
  -- if any of it is installed, and then the next node gets a REFRESH of the session, in which the
  -- lifetime 0 and the next sequence number are read. The removal has to return all keys.
  pub teardown_lem :
      (d : Node P) (c : Ctx P (Ni P)) (mri : P.Mri)
      → c.self.state ≢ close
      → c.self.mri ≡ some mri
      → Removes d c.self.rule
      → let r = process_event d api_teardown c in
        (r.0 ≡ ok tt)
        × (r.1.self.state ≡ close)
        × (r.1.world.log ≡ sent (farewell c.self mri) ∷ (after_removal c.self.rule c.world).log)
        × (get_session_lifetime (farewell_body (next_msn c.self.msn)) ≡ 0)
        × (get_msg_sequence_number (farewell_body (next_msn c.self.msn)) ≡ next_msn c.self.msn)
  unfolding process_event handle_state handle_state_pending handle_state_metering
  teardown_lem d c mri n e rem =
      let values = farewell_values c.self in
      (
        ground (arith, teardown_pending_lem d c mri e rem, teardown_metering_lem d c mri e rem),
        ground (arith, teardown_pending_lem d c mri e rem, teardown_metering_lem d c mri e rem),
        ground (arith, teardown_pending_lem d c mri e rem, teardown_metering_lem d c mri e rem),
        values.0,
        values.1,
      )
