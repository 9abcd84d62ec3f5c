-- ===== src/Dispatcher/Roles.antt =====
-- Which sessions the dispatcher creates.
use m_nslp.Prelude.{
  Bool-cases, ap, ◌∙◌, ℕ, ◌≡◌, ◌≢◌, ◌⊎◌, inl, inr, refl, Bool, Option, none, some, ◌==◌, arith,
  if◌then◌else◌,
}
use m_nslp.Platform.{Platform}
use m_nslp.Map.{find, assign}
use m_nslp.Map.Laws.{IsSorted, find-assign, find-erase, assign-IsSorted}
use m_nslp.Msg.Message.{Message, configure}
use m_nslp.Msg.Ntlp.{NtlpMsg}
use m_nslp.Event.{Body, Event, ApiConfigure, msg, api_configure, get_message}
use m_nslp.Node.{Node}
use m_nslp.Node.Monad.{Ctx, World}
use m_nslp.Session.{SessionType, st_initiator, st_forwarder, st_receiver}
use m_nslp.Manager.{
  AnySession, ni, nf, nr, Table, create_ni_session, create_nf_session, create_nr_session,
}
use m_nslp.Dispatcher.{
  Created, process_session, create_initiator, create_session, run_session, run_created, process,
}
use m_nslp.Dispatcher.Sessions.{process-cases, deliver-cases, create_session-Adds, run_session-find}

module _ {P : Platform} where
  abbrev pub session_type : AnySession P → SessionType
  session_type (ni s) = st_initiator
  session_type (nf s) = st_forwarder
  session_type (nr s) = st_receiver

  process_session-type :
      (d : Node P) (b : Body P) (s : AnySession P) (w : World P)
      → session_type (process_session d b s w).1.0 ≡ session_type s
  unfolding process_session
  process_session-type d b (ni s) w = refl
  process_session-type d b (nf s) w = refl
  process_session-type d b (nr s) w = refl

  run_session-type :
      (d : Node P) (b : Body P) (id : ℕ) (s t : AnySession P) (c : Ctx P (Table P))
      → IsSorted c.self
      → find id (run_session d b id s c).1.self ≡ some t
      → session_type t ≡ session_type s
  unfolding run_session
  run_session-type d b id s t c h f =
      let k = assign id (process_session d b s c.world).1.0 c.self in
      ground (
        arith,
        find-assign id id (process_session d b s c.world).1.0 c.self h,
        find-erase id id k (assign-IsSorted id _ c.self h),
        process_session-type d b s c.world,
      )

  -- Why a session is created, and of which type it is.
  abbrev pub Reason : Event P → ℕ → SessionType → Type 0
  Reason e id type =
      ((a : ApiConfigure P) × (e.body ≡ api_configure a) × (type ≡ st_initiator))
      ⊎ ((m : NtlpMsg P) × (own : Bool) × (r : Message P) × (e.body ≡ msg m own)
          × (e.session_id ≡ some id)
          × (get_message configure (msg m own) ≡ some r)
          × (type ≡ (if own then st_receiver else st_forwarder)))

  create_initiator-type :
      (d : Node P) (c after : Ctx P (Table P)) (id : ℕ) (s : AnySession P)
      → create_initiator d c ≡ some ((id, s), after)
      → session_type s ≡ st_initiator
  unfolding create_initiator create_ni_session
  create_initiator-type d c after id s h = ground arith

  create_session-Reason :
      (d : Node P) (e : Event P) (c after : Ctx P (Table P)) (id : ℕ) (s : AnySession P)
      (b : Body P)
      → e.body ≡ b
      → create_session d e c ≡ some ((id, s), after)
      → Reason e id (session_type s)
  unfolding create_session create_nf_session create_nr_session
  create_session-Reason d e c after id s (api_configure a) q h =
      inl (a, q, create_initiator-type d c after id s (ground arith))
  create_session-Reason d e c after id s (msg m own) q h =
      cases (get_message configure (msg m own)) refl
    where
      cases :
          (o : Option (Message P))
          → get_message configure (msg m own) ≡ o
          → Reason e id (session_type s)
      cases none f = ground arith
      cases (some r) f = inr (m, own, r, q, ground arith, f, ground arith)
  create_session-Reason d e c after id s _ q h = ground arith

  run_created-Reason :
      (d : Node P) (e : Event P) (c : Ctx P (Table P)) (j : ℕ) (t : AnySession P) (o : Created P)
      → create_session d e c ≡ o
      → IsSorted c.self
      → find j c.self ≡ none
      → find j (run_created d e.body c o).1.self ≡ some t
      → Reason e j (session_type t)
  unfolding run_created
  run_created-Reason d e c j t none q h n f = ground arith
  run_created-Reason d e c j t (some ((id, s), after)) q h n f =
      let adds = (create_session-Adds d e c after id s _ refl q).0 in
      let sorted : IsSorted after.self = rw adds (assign-IsSorted id s c.self h) in
      elim (Bool-cases (id == j)) [
        | inl same ↦
            let is : j ≡ id = ground arith in
            let type = run_session-type d e.body id s t after sorted (rw is at f) in
            rw (is, type) (create_session-Reason d e c after id s _ refl q)
        | inr other ↦
            let differs : id ≢ j = λ p. ground arith in
            let kept = run_session-find d e.body id s after j sorted differs in
            ground (arith, kept, adds, find-assign id j s c.self h)
      ]

  -- A session that is new in the table is an initiator's, created by the user's configure
  -- event, or it is created by a CONFIGURE message that names it: a responder's if the message
  -- is addressed to this node, and a forwarder's if not.
  pub process-Reason :
      (d : Node P) (e : Event P) (c : Ctx P (Table P)) (j : ℕ) (t : AnySession P)
      → IsSorted c.self
      → find j c.self ≡ none
      → find j (process d e c).1.self ≡ some t
      → Reason e j (session_type t)
  process-Reason d e c j t h n f = elim (process-cases d e c) [
    | inl same ↦ absurd (ground (arith, ap (λ m. find j m) same))
    | inr step ↦ elim (deliver-cases d e c) [
      | inl (id, s, q, g, run) ↦
          let differs : id ≢ j = λ is. ground arith in
          absurd (ground (arith, run_session-find d e.body id s c j h differs, step, run))
      | inr run ↦ run_created-Reason d e c j t _ refl h n (rw (step ∙ run) at f)
    ]
  ]
