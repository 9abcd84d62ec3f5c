-- ===== src/Session/Nr/Opening.antt =====
-- How a responder comes to meter.
use m_nslp.Prelude.{
  ℕ, suc, ◌≡◌, ◌≢◌, refl, sym, subst, ◌∙◌, Bool, Option, none, some, List, [], ◌∷◌, arith,
}
use m_nslp.Platform.{Platform, Flow}
use m_nslp.Msg.Message.{
  Message, configure, get_session_lifetime, get_msg_sequence_number, get_mspec_objects,
}
use m_nslp.Msg.Ntlp.{NtlpMsg, create_success_response}
use m_nslp.Rule.{PolicyRule, get_number_mspec_objects}
use m_nslp.Event.{Body, msg, get_message}
use m_nslp.Node.{Node, send_message, start_timer, install_policy_rules}
use m_nslp.Node.Monad.{Ctx, World, Outcome, ok, thrown, fault, sent, timer_started, rules_installed}
use m_nslp.Node.Sending.{create_success_response-sendable}
use m_nslp.Session.{Verdict, accept, refuse, Placed, check_preconditions}
use m_nslp.Session.Nr.{
  Nr, close, metering, place_for, place_objects, save_mt_policy_rule, start_state_timer, abandon,
  begin_metering, settle, install_rule, install_placed, initiate, open_request,
}
use m_nslp.Session.Nr.Machine.{handle_state_close, handle_state, process_event}

module _ {P : Platform} where
  -- After the installation of a rule, the answer and the start of the timer.
  abbrev began : Node P → NtlpMsg P → ℕ → PolicyRule P → Ctx P (Nr P) → Ctx P (Nr P)
  began d m l result c = record {
    self = record (c.self) { rule = result; state_timer = d.timer_id w.timers };
    world = record w {
      timers = suc w.timers;
      log = timer_started (d.timer_id w.timers) l ∷ sent (create_success_response l m) ∷ w.log;
    };
  }
    where
      w : World P
      w = c.world

  begin_metering_lem :
      (d : Node P) (m : NtlpMsg P) (l : ℕ) (r : PolicyRule P) (c : Ctx P (Nr P))
      → begin_metering d m l r c ≡ (ok metering, began d m l r c)
  unfolding begin_metering send_message start_state_timer start_timer
  begin_metering_lem d m l r c = ground (arith, create_success_response-sendable P l m)

  abandon-state :
      (d : Node P) (m : NtlpMsg P) (r : PolicyRule P) (c : Ctx P (Nr P))
      → (abandon d m r c).0 ≢ ok metering
  unfolding abandon
  abandon-state d m r c h = ground arith

  settle_lem :
      (d : Node P) (m : NtlpMsg P) (l : ℕ) (r : PolicyRule P) (c : Ctx P (Nr P))
      → (settle d m l r c).0 ≡ ok metering
      → (get_number_mspec_objects r ≡ get_number_mspec_objects c.self.rule)
        × (settle d m l r c ≡ (ok metering, began d m l r c))
  unfolding settle
  settle_lem d m l r c h = ground (arith, begin_metering_lem d m l r c, abandon-state d m r c)

  abbrev log_install : Ctx P (Nr P) → Ctx P (Nr P)
  log_install c = record c { world = record w { log = rules_installed (c.self.rule) ∷ w.log } }
    where
      w : World P
      w = c.world

  -- The installer takes every object of the rule, and the session goes on with what it returns.
  abbrev Installs : Node P → NtlpMsg P → ℕ → Ctx P (Nr P) → Ctx P (Nr P) → Type 0
  Installs d m l c after =
      (result : PolicyRule P) × (d.installer.install c.self.rule ≡ ok result)
      × (get_number_mspec_objects result ≡ get_number_mspec_objects c.self.rule)
      × (after ≡ began d m l result (log_install c))

  install_rule_lem :
      (d : Node P) (m : NtlpMsg P) (l : ℕ) (c : Ctx P (Nr P)) (o : Outcome (PolicyRule P))
      → d.installer.install c.self.rule ≡ o
      → (install_rule d m l c).0 ≡ ok metering
      → Installs d m l c (install_rule d m l c).1
  unfolding install_rule install_policy_rules
  install_rule_lem d m l c (ok r) e h = (
    r,
    e,
    ground (arith, settle_lem d m l r (log_install c)),
    ground (arith, settle_lem d m l r (log_install c)),
  )
  install_rule_lem d m l c (thrown x) e h = ground arith
  install_rule_lem d m l c (fault x) e h = ground arith

  install_placed_lem :
      (d : Node P) (m : NtlpMsg P) (l : ℕ) (missing : List P.Mspec) (c : Ctx P (Nr P))
      → (install_placed d m l missing c).0 ≡ ok metering
      → (missing ≡ []) × Installs d m l c (install_placed d m l missing c).1
  unfolding install_placed
  install_placed_lem d m l [] c h = (refl, install_rule_lem d m l c _ refl h)
  install_placed_lem d m l (x ∷ xs) c h = ground arith

  -- The session and the node after the loop over the objects of a request.
  abbrev with_placed : Placed P → Ctx P (Nr P) → Ctx P (Nr P)
  with_placed p c = record {
    self = record (c.self) { rule = p.rule };
    world = record (c.world) { keys = p.keys };
  }

  abbrev Places : Node P → P.Mri → Message P → Ctx P (Nr P) → List P.Mspec → Ctx P (Nr P) → Type 0
  Places d mri r c missing after =
      (flow : Flow P.Address) × (objects : List P.Mspec) × (P.path_coupled? mri ≡ some flow)
      × (get_mspec_objects r ≡ some objects)
      × (missing ≡ (place_for d r objects c).missing)
      × (after ≡ with_placed (place_for d r objects c) c)

  place_objects_lem :
      (d : Node P) (mri : P.Mri) (flow : Flow P.Address) (r : Message P) (c after : Ctx P (Nr P))
      (missing : List P.Mspec) (o : Option (List P.Mspec))
      → P.path_coupled? mri ≡ some flow
      → get_mspec_objects r ≡ o
      → place_objects d r c ≡ (ok missing, after)
      → Places d mri r c missing after
  unfolding place_objects
  place_objects_lem d mri flow r c after missing none f e h = ground arith
  place_objects_lem d mri flow r c after missing (some xs) f e h =
      (flow, xs, f, e, ground arith, ground arith)

  save_mt_policy_rule_lem :
      (d : Node P) (mri : P.Mri) (r : Message P) (c after : Ctx P (Nr P)) (missing : List P.Mspec)
      (o : Option (Flow P.Address))
      → P.path_coupled? mri ≡ o
      → save_mt_policy_rule d mri r c ≡ (ok missing, after)
      → Places d mri r c missing after
  unfolding save_mt_policy_rule
  save_mt_policy_rule_lem d mri r c after missing none e h = ground arith
  save_mt_policy_rule_lem d mri r c after missing (some flow) e h =
      place_objects_lem d mri flow r c after missing _ e refl (ground arith)

  abbrev taken_over : ℕ → Message P → Ctx P (Nr P) → Ctx P (Nr P)
  taken_over l r c = record c {
    self = record (c.self) { lifetime = l; msn = get_msg_sequence_number r };
  }

  -- A CONFIGURE opens the session for a lifetime: the node can install every object of it, and
  -- the installer takes them all.
  abbrev pub OpensFor : Node P → NtlpMsg P → Message P → ℕ → Ctx P (Nr P) → Ctx P (Nr P) → Type 0
  OpensFor d m r l c after =
      (flow : Flow P.Address) × (objects : List P.Mspec) × (P.path_coupled? m.mri ≡ some flow)
      × (get_mspec_objects r ≡ some objects)
      × ((place_for d r objects (taken_over l r c)).missing ≡ [])
      × Installs d m l (with_placed (place_for d r objects (taken_over l r c)) (taken_over l r c))
          after

  Installs-move :
      (d : Node P) (m : NtlpMsg P) (l : ℕ) (x x' y y' : Ctx P (Nr P))
      → x ≡ x'
      → y ≡ y'
      → Installs d m l x y
      → Installs d m l x' y'
  Installs-move d m l x x' y y' p q i =
      subst (λ t. Installs d m l t y') p (subst (λ t. Installs d m l x t) q i)

  initiate_lem :
      (d : Node P) (m : NtlpMsg P) (r : Message P) (l : ℕ) (c : Ctx P (Nr P))
      → (initiate d m r l c).0 ≡ ok metering
      → OpensFor d m r l c (initiate d m r l c).1
  unfolding initiate
  initiate_lem d m r l c h = cases (save_mt_policy_rule d m.mri r (taken_over l r c)) refl
    where
      cases :
          (o : Outcome (List P.Mspec) × Ctx P (Nr P))
          → save_mt_policy_rule d m.mri r (taken_over l r c) ≡ o
          → OpensFor d m r l c (initiate d m r l c).1
      cases (ok missing, x) e =
          let (flow, xs, f, g, miss, is) =
            save_mt_policy_rule_lem d m.mri r (taken_over l r c) x missing _ refl e in
          let i = install_placed_lem d m l missing x (ground arith) in
          (flow, xs, f, g, sym miss ∙ i.0, Installs-move d m l x _ _ _ is (ground arith) i.1)
      cases (thrown x, y) e = ground arith
      cases (fault x, y) e = ground arith

  -- The event is a CONFIGURE that passes the checks with a lifetime and opens the session.
  abbrev pub Opens : Node P → Body P → Ctx P (Nr P) → Ctx P (Nr P) → Type 0
  Opens d b c after =
      (m : NtlpMsg P) × (own : Bool) × (r : Message P) × (l : ℕ) × (b ≡ msg m own)
      × (get_message configure b ≡ some r)
      × (check_preconditions d m (get_session_lifetime r) c.self.max_lifetime ≡ accept l)
      × (l ≢ 0)
      × OpensFor d m r l c after

  open_request_lem :
      (d : Node P) (m : NtlpMsg P) (r : Message P) (c : Ctx P (Nr P)) (v : Verdict)
      → check_preconditions d m (get_session_lifetime r) c.self.max_lifetime ≡ v
      → (open_request d m r c).0 ≡ ok metering
      → (l : ℕ) × (check_preconditions d m (get_session_lifetime r) c.self.max_lifetime ≡ accept l)
        × (l ≢ 0)
        × (open_request d m r c ≡ initiate d m r l c)
  unfolding open_request
  open_request_lem d m r c (accept l) e h = (l, e, (λ z. ground arith), ground arith)
  open_request_lem d m r c (refuse x) e h = ground arith

  handle_state_close_lem :
      (d : Node P) (b : Body P) (c : Ctx P (Nr P))
      → (handle_state_close d b c).0 ≡ ok metering
      → Opens d b c (handle_state_close d b c).1
  unfolding handle_state_close
  handle_state_close_lem d (msg m own) c h = cases (get_message configure (msg m own)) refl
    where
      cases :
          (o : Option (Message P))
          → get_message configure (msg m own) ≡ o
          → Opens d (msg m own) c (handle_state_close d (msg m own) c).1
      cases none e = ground arith
      cases (some r) e =
          let (l, v, n, same) = open_request_lem d m r c _ refl (ground arith) in
          let opened = initiate_lem d m r l c (ground arith) in
          (m, own, r, l, refl, e, v, n, subst (λ t. OpensFor d m r l c t) (ground arith) opened)
  handle_state_close_lem d b c h = ground arith

  -- A responder comes to meter from CLOSE only by a CONFIGURE that passes the checks with a
  -- lifetime above 0: its node can install every object of the request, the installer takes them
  -- all, a success response with the lifetime is sent and the state timer started with it.
  pub metering_needs_configure :
      (d : Node P) (b : Body P) (c c' : Ctx P (Nr P))
      → process_event d b c ≡ (ok tt, c')
      → c.self.state ≡ close
      → c'.self.state ≡ metering
      → (after : Ctx P (Nr P)) × Opens d b c after
        × (c' ≡ record after { self = record (after.self) { state = metering } })
  unfolding process_event handle_state
  metering_needs_configure d b c c' e s h =
      (_, handle_state_close_lem d b c (ground arith), ground arith)
