-- ===== src/Manager/Unique.antt =====
-- The search for a session id that is not in use: src/session_manager.cpp.
use m_nslp.Prelude.{
  ℕ, zero, suc, ◌+◌, ◌<◌, ◌≡◌, ◌≢◌, ◌⊎◌, inl, inr, refl, Option, none, some, List, arith,
}
use m_nslp.Map.{find}
use m_nslp.Manager.{create_unique_id}

module _ {A : Type 0} where
  -- The draws from `i` on, `k` of them, are all in use.
  abbrev pub AllUsed : (ℕ → ℕ) → ℕ → ℕ → List (ℕ × A) → Type 0
  AllUsed draw i zero table = Unit
  AllUsed draw i (suc k) table = (find (draw i) table ≢ none) × AllUsed draw (suc i) k table

  -- What the search returns is the first draw that is not in use, which is `k` draws on.
  abbrev pub FindsAfter : ℕ → (ℕ → ℕ) → ℕ → List (ℕ × A) → ℕ → Type 0
  FindsAfter fuel draw i table k =
      (k < fuel)
      × AllUsed draw i k table
      × (find (draw (i + k)) table ≡ none)
      × (create_unique_id fuel draw i table ≡ some (draw (i + k), suc (i + k)))

  -- The search goes through the draws in order and returns the first id that is not in use, with the
  -- number of draws; or, if all draws that it may make are in use, it is still searching.
  pub create_unique_id_lem :
      (fuel : ℕ) (draw : ℕ → ℕ) (i : ℕ) (table : List (ℕ × A))
      → ((k : ℕ) × FindsAfter fuel draw i table k)
        ⊎ (AllUsed draw i fuel table × (create_unique_id fuel draw i table ≡ none))
  unfolding create_unique_id
  create_unique_id_lem zero draw i table = inr (tt, refl)
  create_unique_id_lem (suc fuel) draw i table =
      cases (find (draw i) table) refl (create_unique_id_lem fuel draw (suc i) table)
    where
      cases :
          (o : Option A)
          → find (draw i) table ≡ o
          → ((k : ℕ) × FindsAfter fuel draw (suc i) table k)
            ⊎ (AllUsed draw (suc i) fuel table × (create_unique_id fuel draw (suc i) table ≡ none))
          → ((k : ℕ) × FindsAfter (suc fuel) draw i table k)
            ⊎ (AllUsed draw i (suc fuel) table × (create_unique_id (suc fuel) draw i table ≡ none))
      cases none e ih =
          let same : i + 0 ≡ i = omega arith in
          inl (0, (omega arith, tt, rw same e, rw same (ground arith)))
      cases (some a) e (inl (k, (l, used, free, made))) =
          let shift : i + suc k ≡ suc i + k = omega arith in
          inl (
            suc k,
            (omega arith, ((λ z. ground arith), used), rw shift free, rw shift (ground arith)),
          )
      cases (some a) e (inr (used, never)) = inr (((λ z. ground arith), used), ground arith)

  -- An id that the search returns is not in use.
  pub create_unique_id-find :
      (fuel : ℕ) (draw : ℕ → ℕ) (i : ℕ) (table : List (ℕ × A)) (id next : ℕ)
      → create_unique_id fuel draw i table ≡ some (id, next)
      → find id table ≡ none
  unfolding create_unique_id
  create_unique_id-find zero draw i table id next h = ground arith
  create_unique_id-find (suc fuel) draw i table id next h =
      ground (arith, create_unique_id-find fuel draw (suc i) table id next)
