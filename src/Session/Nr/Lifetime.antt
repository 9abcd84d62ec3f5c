-- ===== src/Session/Nr/Lifetime.antt =====
-- How a request opens a responder's session, and the bound on the lifetime.
use m_nslp.Prelude.{ℕ, ◌≤◌, ◌≡◌, refl, Option, none, some, List, [], ◌∷◌, arith}
use m_nslp.Platform.{Platform}
use m_nslp.Msg.Message.{Message, configure, get_session_lifetime, get_msg_sequence_number}
use m_nslp.Msg.Ntlp.{NtlpMsg}
use m_nslp.Rule.{PolicyRule}
use m_nslp.Event.{Body, msg, get_message}
use m_nslp.Node.{Node, send_message, start_timer, install_policy_rules}
use m_nslp.Node.Monad.{Ctx, World, rules_installed, Outcome, ok, thrown, fault}
use m_nslp.Session.{Verdict, accept, refuse, check_preconditions}
use m_nslp.Session.Preconditions.{accept_bound}
use m_nslp.Session.Nr.{
  Nr, place_objects, save_mt_policy_rule, start_state_timer, abandon, begin_metering, settle,
  install_rule, install_placed, initiate, open_request,
}
use m_nslp.Session.Nr.Machine.{handle_state_close, handle_state, process_event}
use m_nslp.Session.Nr.Bounds.{
  Bounded, send_error-self, remove_installed-self, handle_state_metering-Bounded,
}

module _ {P : Platform} where
  -- The placing and the installation change neither id nor lifetimes.
  abbrev Keeps : Nr P → Nr P → Type 0
  Keeps before after =
      (after.id ≡ before.id)
      × (after.max_lifetime ≡ before.max_lifetime)
      × (after.lifetime ≡ before.lifetime)

  save_mt_policy_rule-Keeps :
      (d : Node P) (mri : P.Mri) (r : Message P) (c : Ctx P (Nr P))
      → Keeps c.self (save_mt_policy_rule d mri r c).1.self
  unfolding save_mt_policy_rule place_objects
  save_mt_policy_rule-Keeps d mri r c = ground arith

  abandon-Bounded :
      (d : Node P) (m : NtlpMsg P) (r : PolicyRule P) (c : Ctx P (Nr P))
      → Bounded c.self (abandon d m r c).1.self
  unfolding abandon send_message
  abandon-Bounded d m r c = ground (
    arith,
    remove_installed-self d r (record c { self = record (c.self) { lifetime = 0; rule = r } }),
  )

  settle-Bounded :
      (d : Node P) (m : NtlpMsg P) (l : ℕ) (r : PolicyRule P) (c : Ctx P (Nr P))
      → c.self.lifetime ≤ c.self.max_lifetime
      → Bounded c.self (settle d m l r c).1.self
  unfolding settle begin_metering send_message start_state_timer start_timer
  settle-Bounded d m l r c h = ground (arith, abandon-Bounded d m r c)

  abbrev pub log_install : Ctx P (Nr P) → Ctx P (Nr P)
  log_install c = record c { world = record w { log = rules_installed (c.self.rule) ∷ w.log } }
    where
      w : World P
      w = c.world

  install_rule-Bounded :
      (d : Node P) (m : NtlpMsg P) (l : ℕ) (c : Ctx P (Nr P))
      → c.self.lifetime ≤ c.self.max_lifetime
      → Bounded c.self (install_rule d m l c).1.self
  unfolding install_rule install_policy_rules
  install_rule-Bounded d m l c h = cases (d.installer.install c.self.rule) refl
    where
      cases :
          (o : Outcome (PolicyRule P))
          → d.installer.install c.self.rule ≡ o
          → Bounded c.self (install_rule d m l c).1.self
      cases (ok r) e = ground (arith, settle-Bounded d m l r (log_install c) h)
      cases (thrown x) e = ground arith
      cases (fault x) e = ground arith

  install_placed-Bounded :
      (d : Node P) (m : NtlpMsg P) (l : ℕ) (missing : List P.Mspec) (c : Ctx P (Nr P))
      → c.self.lifetime ≤ c.self.max_lifetime
      → Bounded c.self (install_placed d m l missing c).1.self
  unfolding install_placed send_message
  install_placed-Bounded d m l [] c h = install_rule-Bounded d m l c h
  install_placed-Bounded d m l (x ∷ xs) c h = ground arith

  initiate-Bounded :
      (d : Node P) (m : NtlpMsg P) (r : Message P) (l : ℕ) (c : Ctx P (Nr P))
      → l ≤ c.self.max_lifetime
      → Bounded c.self (initiate d m r l c).1.self
  unfolding initiate
  initiate-Bounded d m r l c h = cases (save_mt_policy_rule d m.mri r c') refl
    where
      c' : Ctx P (Nr P)
      c' = record c { self = record (c.self) { lifetime = l; msn = get_msg_sequence_number r } }

      cases :
          (o : Outcome (List P.Mspec) × Ctx P (Nr P))
          → save_mt_policy_rule d m.mri r c' ≡ o
          → Bounded c.self (initiate d m r l c).1.self
      cases (ok missing, x) e =
          ground
            (arith, save_mt_policy_rule-Keeps d m.mri r c', install_placed-Bounded d m l missing x)
      cases (thrown x, y) e = ground (arith, save_mt_policy_rule-Keeps d m.mri r c')
      cases (fault x, y) e = ground (arith, save_mt_policy_rule-Keeps d m.mri r c')

  open_request-Bounded :
      (d : Node P) (m : NtlpMsg P) (r : Message P) (c : Ctx P (Nr P))
      → c.self.lifetime ≤ c.self.max_lifetime
      → Bounded c.self (open_request d m r c).1.self
  unfolding open_request send_message
  open_request-Bounded d m r c h =
      cases (check_preconditions d m (get_session_lifetime r) c.self.max_lifetime) refl
    where
      cases :
          (v : Verdict)
          → check_preconditions d m (get_session_lifetime r) c.self.max_lifetime ≡ v
          → Bounded c.self (open_request d m r c).1.self
      cases (accept l) e = ground (arith, initiate-Bounded d m r l c (accept_bound d m _ _ l e))
      cases (refuse x) e = ground (arith, send_error-self x m c)

  handle_state_close-Bounded :
      (d : Node P) (b : Body P) (c : Ctx P (Nr P))
      → c.self.lifetime ≤ c.self.max_lifetime
      → Bounded c.self (handle_state_close d b c).1.self
  unfolding handle_state_close
  handle_state_close-Bounded d (msg m own) c h = cases (get_message configure (msg m own)) refl
    where
      cases :
          (o : Option (Message P))
          → get_message configure (msg m own) ≡ o
          → Bounded c.self (handle_state_close d (msg m own) c).1.self
      cases none e = ground arith
      cases (some r) e = ground (arith, open_request-Bounded d m r c h)
  handle_state_close-Bounded d b c h = ground arith

  -- Whatever event a responder's session handles, and however that ends, the session keeps its
  -- id and its maximum lifetime, and its lifetime stays within the maximum if it was.
  pub process_event-Bounded :
      (d : Node P) (b : Body P) (c : Ctx P (Nr P))
      → c.self.lifetime ≤ c.self.max_lifetime
      → Bounded c.self (process_event d b c).1.self
  unfolding process_event handle_state
  process_event-Bounded d b c h =
      ground (arith, handle_state_close-Bounded d b c h, handle_state_metering-Bounded d b c h)
