-- ===== src/Msg/Store/Laws.antt =====
-- The store as a map, for keys that are told apart by their weights.
use mathlib.Core.Path.{subst}
use m_nslp.Prelude.{
  sym, ◌∙◌, ℕ, suc, ◌<◌, ◌≡◌, refl, none, some, List, [], ◌∷◌, ◌++◌, All, arith, ◌==◌,
  if◌then◌else◌,
}
use mathlib.Core.List.{append_assoc, append-nil}
use m_nslp.Msg.Store.{Key, weight, get, set, remove, copy_from, copy}

module _ {A : Type 0} where
  -- Every key is above `n`, and they ascend: what a std::map keeps.
  abbrev pub Above : ℕ → List (Key × A) → Type 0
  Above n [] = Unit
  Above n ((k, a) ∷ rest) = (n < weight k) × Above (weight k) rest

  abbrev pub IsSorted : List (Key × A) → Type 0
  IsSorted [] = Unit
  IsSorted ((k, a) ∷ rest) = Above (weight k) rest

  IsSorted-of_Above : (n : ℕ) (s : List (Key × A)) → Above n s → IsSorted s
  IsSorted-of_Above n [] h = tt
  IsSorted-of_Above n ((k, b) ∷ rest) h = h.1

  get_below : (j : Key) (n : ℕ) (s : List (Key × A)) → Above n s → weight j < suc n → get j s ≡ none
  unfolding get
  get_below j n [] h l = refl
  get_below j n ((k, b) ∷ rest) h l = ground arith

  get-set_low :
      (i j : Key) (a : A) (n : ℕ) (s : List (Key × A))
      → Above n s
      → get j (set i a s) ≡ (if weight i == weight j then some a else get j s)
  unfolding get set
  get-set_low i j a n [] h = ground arith
  get-set_low i j a n ((k, b) ∷ rest) h =
      ground (arith, get-set_low i j a (weight k) rest h.1, get_below j (weight k) rest h.1)

  Above-set :
      (i : Key) (a : A) (n : ℕ) (s : List (Key × A))
      → Above n s
      → n < weight i
      → Above n (set i a s)
  unfolding set
  Above-set i a n [] h l = (l, tt)
  Above-set i a n ((k, b) ∷ rest) h l = ground (arith, Above-set i a (weight k) rest h.1)

  Above-mono : (m n : ℕ) (s : List (Key × A)) → m < n → Above n s → Above m s
  Above-mono m n [] l h = tt
  Above-mono m n ((k, b) ∷ rest) l h = (omega arith, h.1)

  Above-remove : (i : Key) (n : ℕ) (s : List (Key × A)) → Above n s → Above n (remove i s)
  unfolding remove
  Above-remove i n [] h = tt
  Above-remove i n ((k, b) ∷ rest) h =
      ground (arith, Above-remove i (weight k) rest h.1, Above-mono n (weight k) rest)

  get-remove_low :
      (i j : Key) (n : ℕ) (s : List (Key × A))
      → Above n s
      → get j (remove i s) ≡ (if weight i == weight j then none else get j s)
  unfolding get remove
  get-remove_low i j n [] h = ground arith
  get-remove_low i j n ((k, b) ∷ rest) h =
      ground (arith, get-remove_low i j (weight k) rest h.1, get_below j (weight k) rest h.1)

  -- On a store in order, what is set is found under every key of the same weight, what is removed
  -- is found under none of them, keys of other weights are as they were, and the order is kept.
  pub get-set :
      (i j : Key) (a : A) (s : List (Key × A))
      → IsSorted s
      → (get j (set i a s) ≡ (if weight i == weight j then some a else get j s))
        × (get j (remove i s) ≡ (if weight i == weight j then none else get j s))
        × IsSorted (set i a s)
        × IsSorted (remove i s)
  unfolding get set remove
  get-set i j a [] h = (ground arith, ground arith, tt, tt)
  get-set i j a ((k, b) ∷ rest) h = (
    ground (arith, get-set_low i j a (weight k) rest h, get_below j (weight k) rest h),
    ground (arith, get-remove_low i j (weight k) rest h, get_below j (weight k) rest h),
    ground (arith, Above-set i a (weight k) rest h),
    ground (arith, Above-remove i (weight k) rest h, IsSorted-of_Above (weight k) rest h),
  )

  -- Every key is below `n`.
  abbrev pub Below : ℕ → List (Key × A) → Type 0
  Below n s = All (λ e. weight e.0 < n) s

  -- A key above all others goes to the end.
  pub set_append :
      (i : Key) (a : A) (s : List (Key × A)) → Below (weight i) s → set i a s ≡ s ++ (i, a) ∷ []
  unfolding set
  set_append i a [] h = refl
  set_append i a ((k, b) ∷ rest) h = ground (arith, set_append i a rest h.1)

  -- A key above all that come before it is found.
  pub get_append :
      (i : Key) (a : A) (s r : List (Key × A))
      → Below (weight i) s
      → get i (s ++ (i, a) ∷ r) ≡ some a
  unfolding get
  get_append i a [] r h = ground arith
  get_append i a ((k, b) ∷ rest) r h = ground (arith, get_append i a rest r h.1)

  pub Below-append :
      (i : Key) (a : A) (n : ℕ) (s : List (Key × A))
      → Below (weight i) s
      → weight i < n
      → Below n (s ++ (i, a) ∷ [])
  Below-append i a n [] h l = (l, tt)
  Below-append i a n ((k, b) ∷ rest) h l = (omega arith, Below-append i a n rest h.1 l)

  copy_from-append :
      (acc s : List (Key × A))
      → IsSorted s
      → ((k : Key) (a : A) (r : List (Key × A)) → s ≡ (k, a) ∷ r → Below (weight k) acc)
      → copy_from acc s ≡ acc ++ s
  unfolding copy_from
  copy_from-append acc [] h below = sym (append-nil acc)
  copy_from-append acc ((k, a) ∷ rest) h below = rw (set_append k a acc (below k a rest refl)) (
      copy_from-append (acc ++ (k, a) ∷ []) rest (IsSorted-of_Above (weight k) rest h) (next rest h)
      ∙ append_assoc acc ((k, a) ∷ []) rest)
    where
      next :
          (r : List (Key × A))
          → Above (weight k) r
          → (j : Key) (b : A) (t : List (Key × A)) → r ≡ (j, b) ∷ t
          → Below (weight j) (acc ++ (k, a) ∷ [])
      next r above j b t e =
          Below-append k a (weight j) acc (below k a rest refl) (subst (Above (weight k)) e above).0

  -- The copy of a store in order has the same entries.
  copy-eq : (s : List (Key × A)) → IsSorted s → copy s ≡ s
  unfolding copy
  copy-eq s h = copy_from-append [] s h λ k a r e. tt
