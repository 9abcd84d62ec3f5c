-- ===== src/Node/Monad.antt =====
-- Handlers as functions on a session and on the record of what the node did. A handler returns,
-- throws, or stops the program.
use m_nslp.Prelude.{ℕ, Bool, true, false, List, ◌∷◌}
use Prim.Native.String.{String}
use m_nslp.Platform.{Platform}
use m_nslp.Msg.Ntlp.{NtlpMsg}
use m_nslp.Rule.{PolicyRule}

-- The exceptions of include/session.h and include/policy_rule_installer.h, with severity and
-- response code. An installer_error is a request_error by inheritance.
pub data Exn : Type 0 where
  request_error override_lifetime installer_error : (severity code : ℕ) → Exn

-- An assertion that fails, a call through a null pointer, the end of a function that should return
-- a value, an exception of a class that nothing catches, and an access outside of an object.
pub data Fault : Type 0 where
  assertion_failed null_pointer no_return uncaught out_of_bounds : Fault

pub data Outcome (A : Type 0) : Type 0 where
  ok : A → Outcome A
  thrown : Exn → Outcome A
  fault : Fault → Outcome A

-- What other parties see of the node.
pub data Action (P : Platform) : Type 0 where
  sent : NtlpMsg P → Action P
  timer_started : (id seconds : ℕ) → Action P
  rules_installed rules_removed : PolicyRule P → Action P
  reported : String → Action P
  -- The session id is put on the return queue of an API event.
  returned : ℕ → Action P
  -- GIST is told to accept a query.
  accepted_query : ℕ → Action P

pub record World (P : Platform) : Type 0 where
  -- How many timer messages, keys, random numbers and session ids were made.
  pub timers : ℕ
  pub keys : ℕ
  pub draws : ℕ
  pub ids : ℕ
  -- The newest action is first.
  pub log : List (Action P)

pub record Ctx (P : Platform) (S : Type 0) : Type 0 where
  pub self : S
  pub world : World P

abbrev pub M : Platform → Type 0 → Type 0 → Type 0
M P S A = Ctx P S → Outcome A × Ctx P S

module _ {P : Platform} {S A : Type 0} where
  abbrev pub pure : A → M P S A
  pure a c = (ok a, c)

  abbrev pub throw : Exn → M P S A
  throw e c = (thrown e, c)

  abbrev pub stop : Fault → M P S A
  stop f c = (fault f, c)

  infixl 5 ◌>>=◌
  abbrev pub ◌>>=◌ : {B : Type 0} → M P S A → (A → M P S B) → M P S B
  ◌>>=◌ m f c = elim ((m c).0) [
    | ok a ↦ f a (m c).1
    | thrown e ↦ (thrown e, (m c).1)
    | fault s ↦ (fault s, (m c).1)
  ]

module _ {P : Platform} {S : Type 0} where
  infixl 5 ◌>>◌
  abbrev pub ◌>>◌ : {A : Type 0} → M P S (Unit {0}) → M P S A → M P S A
  m >> k = m >>= λ _. k

  abbrev pub assert : Bool → M P S (Unit {0})
  assert true c = (ok tt, c)
  assert false c = (fault assertion_failed, c)

  abbrev pub get_world : M P S (World P)
  get_world c = (ok c.world, c)

  abbrev pub put_world : World P → M P S (Unit {0})
  put_world w c = (ok tt, record c { world = w })

  abbrev pub act : Action P → M P S (Unit {0})
  act a c = (ok tt, record c { world = record w { log = a ∷ w.log } })
    where
      w : World P
      w = c.world

  abbrev pub get_self : M P S S
  get_self c = (ok c.self, c)

  abbrev pub put_self : S → M P S (Unit {0})
  put_self s c = (ok tt, record c { self = s })

  -- `try { ... } catch ( request_error &e ) { ... }`, which catches the two classes of errors
  -- that are answered. What the block changed stays.
  abbrev pub catch_errors : {A : Type 0} → M P S A → (ℕ → ℕ → M P S A) → M P S A
  catch_errors m handler c = elim ((m c).0) [
    | ok a ↦ (ok a, (m c).1)
    | thrown e ↦ elim e [
      | request_error severity code ↦ handler severity code (m c).1
      | installer_error severity code ↦ handler severity code (m c).1
      | override_lifetime severity code ↦ (thrown (override_lifetime severity code), (m c).1)
    ]
    | fault f ↦ (fault f, (m c).1)
  ]
