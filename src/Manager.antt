-- ===== src/Manager.antt =====
-- src/session_manager.cpp: the table of the sessions. The methods hold the mutex of the table
-- from their first to their last statement, so each is one step.
pub mod Unique
use m_nslp.Prelude.{ℕ, zero, suc, Bool, true, false, Option, none, some, List}
use m_nslp.Platform.{Platform}
use m_nslp.Map.{find, assign, erase}
use m_nslp.Node.{Node}
use m_nslp.Session.Ni
use m_nslp.Session.Ni.{Ni, new_ni_session}
use m_nslp.Session.Nf.{Nf, new_nf_session}
use m_nslp.Session.Nr.{Nr, new_nr_session}
use m_nslp.Session.Ni.Machine
use m_nslp.Session.Nf.Refreshing
use m_nslp.Session.Nr.Machine as NrMachine

-- A pointer to a session, with the class of the object.
pub data AnySession (P : Platform) : Type 0 where
  ni : Ni P → AnySession P
  nf : Nf P → AnySession P
  nr : Nr P → AnySession P

abbrev pub Table : Platform → Type 0
Table P = List (ℕ × AnySession P)

module _ {A : Type 0} where
  -- create_unique_id, from the ids that are drawn next. `none` is a loop that goes on for more
  -- rounds than allowed. It returns the id and how many ids were drawn then.
  unfoldable pub create_unique_id : ℕ → (ℕ → ℕ) → ℕ → List (ℕ × A) → Option (ℕ × ℕ)
  create_unique_id zero draw i table = none
  create_unique_id (suc fuel) draw i table =
      let later = create_unique_id fuel draw (suc i) table in
      elim (find (draw i) table) [ none ↦ some (draw i, suc i) | some _ ↦ later ]

module _ {P : Platform} where
  -- The virtual method is_final.
  unfoldable pub is_final : AnySession P → Bool
  is_final (ni s) = Machine.is_final s
  is_final (nf s) = Refreshing.is_final s
  is_final (nr s) = NrMachine.is_final s

  -- create_ni_session, for an id that is unused, and with the random number of the constructor.
  unfoldable pub create_ni_session : Node P → ℕ → ℕ → Table P → AnySession P × Table P
  create_ni_session d id msn table = let s = ni (new_ni_session d id msn) in (s, assign id s table)

  unfoldable pub create_nf_session : ℕ → Table P → AnySession P × Table P
  create_nf_session id table = let s = nf (new_nf_session id) in (s, assign id s table)

  unfoldable pub create_nr_session : Node P → ℕ → Table P → AnySession P × Table P
  create_nr_session d id table = let s = nr (new_nr_session d id) in (s, assign id s table)

  abbrev pub get_session : ℕ → Table P → Option (AnySession P)
  get_session id table = find id table

  -- remove_session, for the id of a session that is in the table.
  abbrev pub remove_session : ℕ → Table P → Table P
  remove_session id table = erase id table
