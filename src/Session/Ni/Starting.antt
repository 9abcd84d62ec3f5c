-- ===== src/Session/Ni/Starting.antt =====
-- How an initiator starts a session on the user's request.
use m_nslp.Prelude.{
  ℕ, ◌+◌, ◌≤◌, ◌<◌, ◌≡◌, refl, ap, subst, true, false, some, List, ◌∷◌, arith, ◌==◌, leb, u32_mod,
  length, if◌then◌else◌,
}
use m_nslp.Platform.{Platform}
use m_nslp.Msg.Serial.{next_msn}
use m_nslp.Msg.Message.{Message, get_mspec_objects, get_session_lifetime, get_msg_sequence_number}
use m_nslp.Msg.Message.Laws.{build, build_reads}
use m_nslp.Msg.Ntlp.{NtlpMsg}
use m_nslp.Event.{ApiConfigure, api_configure}
use m_nslp.Node.{Node, is_sendable}
use m_nslp.Node.Sending.{build-sendable}
use m_nslp.Node.Monad.{Ctx, Action, sent, timer_started, returned, ok, fault, assertion_failed}
use m_nslp.Rule.{PolicyRule}
use m_nslp.Session.Placing.{installable, others, with_objects, place_lem}
use m_nslp.Session.{place, check_participating, st_initiator, Placed}
use m_nslp.Session.Ni.{
  Ni, close, pending, refresh_interval_for, set_up, setup_session, build_configure_message,
  configure_message, new_ni_session, flow_of,
}
use m_nslp.Session.Ni.Machine.{process_event, handle_state, handle_state_close, start_session}

-- The refresh interval of a session with a lifetime and at least one retry is positive and
-- not longer than the lifetime.
refresh_interval_bounds :
    (lifetime max_retries : ℕ)
    → 0 < lifetime
    → lifetime < u32_mod
    → 0 < max_retries
    → (0 < refresh_interval_for lifetime max_retries)
      × (refresh_interval_for lifetime max_retries ≤ lifetime)
unfolding refresh_interval_for
refresh_interval_bounds l m p s q = grind arith

refresh_interval-zero : (max_retries : ℕ) → refresh_interval_for 0 max_retries ≡ 0
unfolding refresh_interval_for
refresh_interval-zero m = grind arith

nonzero : (n : ℕ) → 0 < n → (n == 0) ≡ false
nonzero n h = ground arith

leb_refl : (n : ℕ) → leb n n ≡ true
leb_refl n = ground arith

module _ {P : Platform} where
  setup_session_ok :
      (d : Node P) (e : ApiConfigure P) (c : Ctx P (Ni P))
      → 0 < (set_up d e c).0.self.refresh_interval
      → setup_session d e c ≡ (ok (set_up d e c).1, (set_up d e c).0)
  unfolding setup_session
  setup_session_ok d e c h = ground arith

  setup_session_zero :
      (d : Node P) (e : ApiConfigure P) (c : Ctx P (Ni P))
      → e.lifetime ≡ 0
      → c.self.lifetime ≡ 0
      → setup_session d e c ≡ (fault assertion_failed, c)
  unfolding setup_session set_up
  setup_session_zero d e c h l = ground (arith, refresh_interval-zero c.self.max_retries)

  start_session_zero :
      (d : Node P) (e : ApiConfigure P) (c : Ctx P (Ni P))
      → e.lifetime ≡ 0
      → c.self.lifetime ≡ 0
      → (start_session d e c).0 ≡ fault assertion_failed
  unfolding start_session
  start_session_zero d e c h l = ground (arith, setup_session_zero d e c h l)

  close_zero :
      (d : Node P) (e : ApiConfigure P) (c : Ctx P (Ni P))
      → c.self.state ≡ close
      → e.lifetime ≡ 0
      → c.self.lifetime ≡ 0
      → (process_event d (api_configure e) c).0 ≡ fault assertion_failed
  unfolding process_event handle_state handle_state_close
  close_zero d e c s h l = ground (arith, start_session_zero d e c h l)

  -- A new session that is asked for with lifetime 0, which is the default of the API event,
  -- fails the assertion that the refresh interval is positive.
  start_zero_aborts :
      (d : Node P) (e : ApiConfigure P) (c : Ctx P (Ni P)) (id msn : ℕ)
      → c.self ≡ new_ni_session d id msn
      → e.lifetime ≡ 0
      → (process_event d (api_configure e) c).0 ≡ fault assertion_failed
  unfolding new_ni_session
  start_zero_aborts d e c id msn n h =
      close_zero d e c (ap (λ t. t.state) n) h (ap (λ t. t.lifetime) n)

  -- What the node places, and the CONFIGURE that a session sends first.
  abbrev placed_for : Node P → ApiConfigure P → Ctx P (Ni P) → Placed P
  placed_for d e c =
      place d (check_participating st_initiator e.sel_met_entities) e.mspec_objects c.world.keys
        c.self.rule

  abbrev pub first_body : ApiConfigure P → Ctx P (Ni P) → List P.Mspec → Message P
  first_body e c missing =
      build P (e.lifetime) (next_msn (c.self.msn)) (e.sel_met_entities) (c.self.msg_hop_count)
        missing

  abbrev pub first_configure : ApiConfigure P → Ctx P (Ni P) → List P.Mspec → NtlpMsg P
  first_configure e c missing = record {
    session_id = c.self.id;
    body = some (first_body e c missing);
    mri = P.path_coupled (flow_of e);
    sii_handle = 0;
  }

  set_up_values :
      (d : Node P) (e : ApiConfigure P) (c : Ctx P (Ni P))
      → 0 < e.lifetime
      → ((set_up d e c).1 ≡ (placed_for d e c).missing)
        × (build_configure_message e (set_up d e c).1 (set_up d e c).0 ≡ (
          ok (first_configure e c (placed_for d e c).missing),
          record ((set_up d e c).0) {
            self = record ((set_up d e c).0.self) { msn = next_msn (c.self.msn) };
          },
        ))
  unfolding set_up build_configure_message configure_message
  set_up_values d e c h = (refl, rw (nonzero (e.lifetime) h, leb_refl (e.lifetime)))

  set_up_world :
      (d : Node P) (e : ApiConfigure P) (c : Ctx P (Ni P))
      → ((set_up d e c).0.world.log ≡ c.world.log)
        × ((set_up d e c).0.world.timers ≡ c.world.timers)
        × ((set_up d e c).0.self.id ≡ c.self.id)
        × ((set_up d e c).0.self.rule ≡ (placed_for d e c).rule)
        × ((set_up d e c).0.self.response_timeout
            ≡ d.jitter c.world.draws (set_up d e c).0.self.refresh_interval)
  unfolding set_up
  set_up_world d e c = (refl, refl, refl, refl, refl)

  set_up_interval :
      (d : Node P) (e : ApiConfigure P) (c : Ctx P (Ni P))
      → 0 < e.lifetime
      → (set_up d e c).0.self.refresh_interval
        ≡ refresh_interval_for (e.lifetime) (c.self.max_retries)
  unfolding set_up
  set_up_interval d e c h = rw (nonzero (e.lifetime) h)

  -- The answer to the API event, if it waits for one, after the CONFIGURE and its timer.
  abbrev pub starting_log : Node P → ApiConfigure P → Ctx P (Ni P) → List P.Mspec → List (Action P)
  starting_log d e c missing =
      let log =
        timer_started (d.timer_id (c.world.timers))
          (d.jitter c.world.draws (refresh_interval_for e.lifetime c.self.max_retries))
        ∷ sent (first_configure e c missing)
        ∷ c.world.log in
      if e.has_return_queue then returned (c.self.id) ∷ log else log

  start_session_lem :
      (d : Node P) (e : ApiConfigure P) (c : Ctx P (Ni P))
      → 0 < e.lifetime
      → 0 < (set_up d e c).0.self.refresh_interval
      → is_sendable (some (first_body e c (placed_for d e c).missing)) ≡ true
      → ((start_session d e c).0 ≡ ok pending)
        × ((start_session d e c).1.self.last_configure
            ≡ some (first_configure e c (placed_for d e c).missing))
        × ((start_session d e c).1.self.rule ≡ (placed_for d e c).rule)
        × ((start_session d e c).1.world.log ≡ starting_log d e c (placed_for d e c).missing)
  unfolding start_session
  start_session_lem d e c h i s = ground (
    arith,
    setup_session_ok d e c i,
    (set_up_values d e c h).1,
    set_up_world d e c,
    set_up_interval d e c h,
  )

  -- What the start of a session leaves, for what the node places.
  Starts : Node P → ApiConfigure P → Ctx P (Ni P) → PolicyRule P → List P.Mspec → Type 0
  Starts d e c rule missing =
      let r = process_event d (api_configure e) c in
      (r.0 ≡ ok tt)
      × (r.1.self.state ≡ pending)
      × (r.1.self.rule ≡ rule)
      × (r.1.self.last_configure ≡ some (first_configure e c missing))
      × (r.1.world.log ≡ starting_log d e c missing)
      × (get_session_lifetime (first_body e c missing) ≡ e.lifetime)
      × (get_msg_sequence_number (first_body e c missing) ≡ next_msn c.self.msn)
      × (get_mspec_objects (first_body e c missing) ≡ some missing)

  Starts-placed :
      (d : Node P) (e : ApiConfigure P) (c : Ctx P (Ni P))
      → c.self.state ≡ close
      → 0 < e.lifetime
      → e.lifetime < u32_mod
      → 0 < c.self.max_retries
      → 300 + length (placed_for d e c).missing < u32_mod
      → Starts d e c (placed_for d e c).rule (placed_for d e c).missing
  unfolding Starts process_event handle_state handle_state_close
  Starts-placed d e c p h l q small =
      let i = refresh_interval_bounds e.lifetime c.self.max_retries h l q in
      let sendable = build-sendable P _ _ _ _ (placed_for d e c).missing small in
      let reads =
        build_reads P e.lifetime (next_msn c.self.msn) e.sel_met_entities c.self.msg_hop_count
          (placed_for d e c).missing small in
      let started = start_session_lem d e c h (rw (set_up_interval d e c h) (i.0)) sendable in
      (
        ground (arith, started),
        ground (arith, started),
        ground (arith, started),
        ground (arith, started),
        ground (arith, started),
        reads.0,
        reads.1,
        reads.4,
      )

  -- The specifications of the request that this node installs itself, and the others.
  abbrev pub mine_of : Node P → ApiConfigure P → List P.Mspec
  mine_of d e = installable d (check_participating st_initiator e.sel_met_entities) e.mspec_objects

  abbrev pub others_of : Node P → ApiConfigure P → List P.Mspec
  others_of d e = others d (check_participating st_initiator e.sel_met_entities) e.mspec_objects

  -- A closed session that the user configures with a lifetime, with at least one retry and not
  -- almost 2^32 specifications, becomes pending. Each specification of the request that this node
  -- takes part in and can install is inserted into its rule under the key that is made next, so
  -- that it is lost only if that key is in use already. Each other one goes, in its order, into
  -- one CONFIGURE, which asks for the user's lifetime and has the next sequence number. The
  -- CONFIGURE is kept and sent, a timer is started, and the user gets an answer if the request
  -- waits for one.
  pub start_lem :
      (d : Node P) (e : ApiConfigure P) (c : Ctx P (Ni P))
      → c.self.state ≡ close
      → 0 < e.lifetime
      → e.lifetime < u32_mod
      → 0 < c.self.max_retries
      → 300 + length (others_of d e) < u32_mod
      → let r = process_event d (api_configure e) c in
        (r.0 ≡ ok tt)
        × (r.1.self.state ≡ pending)
        × (r.1.self.rule ≡ with_objects d c.world.keys (mine_of d e) c.self.rule)
        × (r.1.self.last_configure ≡ some (first_configure e c (others_of d e)))
        × (r.1.world.log ≡ starting_log d e c (others_of d e))
        × (get_session_lifetime (first_body e c (others_of d e)) ≡ e.lifetime)
        × (get_msg_sequence_number (first_body e c (others_of d e)) ≡ next_msn c.self.msn)
        × (get_mspec_objects (first_body e c (others_of d e)) ≡ some (others_of d e))
  unfolding Starts
  start_lem d e c p h l q small =
      let placed =
        place_lem d (check_participating st_initiator e.sel_met_entities) e.mspec_objects
          c.world.keys c.self.rule in
      let few : 300 + length (placed_for d e c).missing < u32_mod = rw (placed.1) small in
      subst (λ m. Starts d e c (with_objects d c.world.keys (mine_of d e) c.self.rule) m) (placed.1)
        (subst (λ r. Starts d e c r (placed_for d e c).missing) (placed.0)
          (Starts-placed d e c p h l q few))
