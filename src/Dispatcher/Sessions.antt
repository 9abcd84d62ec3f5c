-- ===== src/Dispatcher/Sessions.antt =====
-- What the dispatcher does to the table of the sessions.
use m_nslp.Prelude.{
  Bool-cases, sym, ap, ◌∙◌, ℕ, suc, ◌≡◌, ◌≢◌, ◌⊎◌, inl, inr, refl, false, Option, none, some, ◌==◌,
  length, arith,
}
use m_nslp.Platform.{Platform}
use m_nslp.Map.{find, assign}
use m_nslp.Map.Laws.{IsSorted, find-assign, find-erase, assign-IsSorted, erase-IsSorted}
use m_nslp.Event.{Body, Event, msg, routing_state_check, api_configure}
use m_nslp.Node.{Node, send_message}
use m_nslp.Node.Monad.{Ctx, ok}
use m_nslp.Manager.{
  AnySession, Table, is_final, create_unique_id, create_ni_session, create_nf_session,
  create_nr_session,
}
use m_nslp.Manager.Unique.{create_unique_id-find}
use m_nslp.Dispatcher.{
  Created, process_session, create_initiator, create_session, run_session, run_created, deliver,
  send_receive_answer, refuse_invalid, process,
}

module _ {P : Platform} where
  -- No session in the table is final, and the entries are in order.
  pub record IsLive (table : Table P) : Type 0 where
    pub sorted : IsSorted table
    pub live : (i : ℕ) (s : AnySession P) → find i table ≡ some s → is_final s ≡ false

  pub run_session-find :
      (d : Node P) (b : Body P) (id : ℕ) (s : AnySession P) (c : Ctx P (Table P)) (j : ℕ)
      → IsSorted c.self
      → id ≢ j
      → find j (run_session d b id s c).1.self ≡ find j c.self
  unfolding run_session
  run_session-find d b id s c j h n =
      let k = assign id (process_session d b s c.world).1.0 c.self in
      ground (
        arith,
        find-assign id j (process_session d b s c.world).1.0 c.self h,
        find-erase id j k (assign-IsSorted id _ c.self h),
      )

  run_session-IsSorted :
      (d : Node P) (b : Body P) (id : ℕ) (s : AnySession P) (c : Ctx P (Table P))
      → IsSorted c.self
      → IsSorted (run_session d b id s c).1.self
  unfolding run_session
  run_session-IsSorted d b id s c h =
      let k = assign id (process_session d b s c.world).1.0 c.self in
      let l = assign-IsSorted id (process_session d b s c.world).1.0 c.self h in
      ground (arith, l, erase-IsSorted id k l)

  run_session-final :
      (d : Node P) (b : Body P) (id : ℕ) (s t : AnySession P) (c : Ctx P (Table P))
      → IsSorted c.self
      → (run_session d b id s c).0 ≡ ok tt
      → find id (run_session d b id s c).1.self ≡ some t
      → is_final t ≡ false
  unfolding run_session
  run_session-final d b id s t c h o f =
      let k = assign id (process_session d b s c.world).1.0 c.self in
      ground (
        arith,
        find-assign id id (process_session d b s c.world).1.0 c.self h,
        find-erase id id k (assign-IsSorted id _ c.self h),
      )

  -- What the creation of a session does to the table: the new session is put in, under the id of
  -- the event or under an id that was not in use.
  abbrev pub Adds : Event P → Ctx P (Table P) → ℕ → AnySession P → Ctx P (Table P) → Type 0
  Adds e c id s after =
      (after.self ≡ assign id s c.self) × ((e.session_id ≡ some id) ⊎ (find id c.self ≡ none))

  create_initiator-Adds :
      (d : Node P) (e : Event P) (c after : Ctx P (Table P)) (id : ℕ) (s : AnySession P)
      (o : Option (ℕ × ℕ))
      → create_unique_id (suc (length c.self)) d.session_id c.world.ids c.self ≡ o
      → create_initiator d c ≡ some ((id, s), after)
      → Adds e c id s after
  unfolding create_initiator create_ni_session
  create_initiator-Adds d e c after id s none q h = ground arith
  create_initiator-Adds d e c after id s (some (x, next)) q h = (
    ground arith,
    inr (
        ground (
          arith,
          create_unique_id-find (suc (length c.self)) d.session_id c.world.ids c.self x next q,
        )),
  )

  pub create_session-Adds :
      (d : Node P) (e : Event P) (c after : Ctx P (Table P)) (id : ℕ) (s : AnySession P)
      (b : Body P)
      → e.body ≡ b
      → create_session d e c ≡ some ((id, s), after)
      → Adds e c id s after
  unfolding create_session create_nf_session create_nr_session
  create_session-Adds d e c after id s (api_configure a) q h =
      create_initiator-Adds d e c after id s _ refl (ground arith)
  create_session-Adds d e c after id s (msg m own) q h = (ground arith, inl (ground arith))
  create_session-Adds d e c after id s _ q h = ground arith

  run_session-IsLive :
      (d : Node P) (b : Body P) (id : ℕ) (s : AnySession P) (c : Ctx P (Table P))
      → IsSorted c.self
      → ((i : ℕ) (t : AnySession P) → id ≢ i → find i c.self ≡ some t → is_final t ≡ false)
      → (run_session d b id s c).0 ≡ ok tt
      → IsLive (run_session d b id s c).1.self
  run_session-IsLive d b id s c h others o = record {
    sorted = run_session-IsSorted d b id s c h;
    live = λ i t f. elim (Bool-cases (id == i)) [
      | inl same ↦ let is : i ≡ id = ground arith in run_session-final d b id s t c h o (rw is at f)
      | inr other ↦
          let n : id ≢ i = λ q. ground arith in
          others i t n (sym (run_session-find d b id s c i h n) ∙ f)
    ];
  }

  run_created-IsLive :
      (d : Node P) (e : Event P) (c : Ctx P (Table P)) (o : Created P)
      → create_session d e c ≡ o
      → IsLive c.self
      → (run_created d e.body c o).0 ≡ ok tt
      → IsLive (run_created d e.body c o).1.self
  unfolding run_created
  run_created-IsLive d e c none q h k = h
  run_created-IsLive d e c (some ((id, s), after)) q h k =
      let (adds, new) = create_session-Adds d e c after id s _ refl q in
      run_session-IsLive d e.body id s after (rw adds (assign-IsSorted id s c.self h.sorted))
        (λ i t n f. h.live i t (ground (arith, find-assign id i s c.self h.sorted))) k

  -- The session that an event is for is in the table.
  abbrev pub Taken : Node P → Event P → Ctx P (Table P) → Type 0
  Taken d e c =
      (id : ℕ) × (s : AnySession P) × (e.session_id ≡ some id)
      × (find id c.self ≡ some s)
      × (deliver d e c ≡ run_session d e.body id s c)

  pub deliver-cases :
      (d : Node P) (e : Event P) (c : Ctx P (Table P))
      → Taken d e c ⊎ (deliver d e c ≡ run_created d e.body c (create_session d e c))
  unfolding deliver
  deliver-cases d e c = cases (e.session_id) refl
    where
      found :
          (id : ℕ) (o : Option (AnySession P))
          → e.session_id ≡ some id
          → find id c.self ≡ o
          → Taken d e c ⊎ (deliver d e c ≡ run_created d e.body c (create_session d e c))
      found id none q f = inr (ground arith)
      found id (some s) q f = inl (id, s, q, f, ground arith)

      cases :
          (o : Option ℕ)
          → e.session_id ≡ o
          → Taken d e c ⊎ (deliver d e c ≡ run_created d e.body c (create_session d e c))
      cases none q = inr (ground arith)
      cases (some id) q = found id _ q refl

  pub process-cases :
      (d : Node P) (e : Event P) (c : Ctx P (Table P))
      → ((process d e c).1.self ≡ c.self) ⊎ (process d e c ≡ deliver d e c)
  unfolding process send_receive_answer refuse_invalid send_message
  process-cases d e c = cases (e.body) refl
    where
      cases :
          (b : Body P)
          → e.body ≡ b
          → ((process d e c).1.self ≡ c.self) ⊎ (process d e c ≡ deliver d e c)
      cases (routing_state_check mri) q = inl (ground arith)
      cases (msg m own) q = ground arith
      cases _ q = inr (ground arith)

  -- If every session in the table is live and its entries are in order, that is so after the
  -- dispatcher has processed an event, whether a session was created, went on, was aborted by
  -- an exception, or ended. The processing has to return.
  pub process-IsLive :
      (d : Node P) (e : Event P) (c : Ctx P (Table P))
      → IsLive c.self
      → (process d e c).0 ≡ ok tt
      → IsLive (process d e c).1.self
  process-IsLive d e c h k = elim (process-cases d e c) [
    | inl same ↦ rw same h
    | inr step ↦ elim (deliver-cases d e c) [
      | inl (id, s, q, f, run) ↦
          let both = step ∙ run in
          rw both
            (run_session-IsLive d e.body id s c h.sorted (λ i t n g. h.live i t g) (rw both at k))
      | inr run ↦
          let both = step ∙ run in rw both (run_created-IsLive d e c _ refl h (rw both at k))
    ]
  ]

  run_created-find :
      (d : Node P) (e : Event P) (c : Ctx P (Table P)) (j : ℕ) (t : AnySession P) (o : Created P)
      → create_session d e c ≡ o
      → IsSorted c.self
      → e.session_id ≢ some j
      → find j c.self ≡ some t
      → find j (run_created d e.body c o).1.self ≡ some t
  unfolding run_created
  run_created-find d e c j t none q h n f = f
  run_created-find d e c j t (some ((id, s), after)) q h n f =
      let (adds, new) = create_session-Adds d e c after id s _ refl q in
      let differs : id ≢ j = λ is. ground arith in
      run_session-find d e.body id s after j (rw adds (assign-IsSorted id s c.self h)) differs
      ∙ ap (λ m. find j m) adds
      ∙ ground (arith, find-assign id j s c.self h)

  -- An event leaves every session alone that is in the table and is not the one that the event
  -- names, however the processing ends.
  pub process-others :
      (d : Node P) (e : Event P) (c : Ctx P (Table P)) (j : ℕ) (t : AnySession P)
      → IsSorted c.self
      → e.session_id ≢ some j
      → find j c.self ≡ some t
      → find j (process d e c).1.self ≡ some t
  process-others d e c j t h n f = elim (process-cases d e c) [
    | inl same ↦ rw same f
    | inr step ↦ elim (deliver-cases d e c) [
      | inl (id, s, q, g, run) ↦
          let both = step ∙ run in
          let differs : id ≢ j = λ is. ground arith in
          rw both (run_session-find d e.body id s c j h differs ∙ f)
      | inr run ↦ let both = step ∙ run in rw both (run_created-find d e c j t _ refl h n f)
    ]
  ]
