-- ===== src/Map/Laws.antt =====
-- Maps in order behave as maps.
use mathlib.Core.List.{append-nil, append_assoc}
use m_nslp.Prelude.{
  ℕ, suc, ◌<◌, ◌≡◌, refl, sym, ◌∙◌, none, some, List, [], ◌∷◌, ◌++◌, All, arith, ◌==◌, is_some,
  length, if◌then◌else◌,
}
use m_nslp.Map.{find, assign, insert, erase, assign_all, insert_all}

module _ {A : Type 0} where
  -- The keys ascend from above `n`.
  abbrev pub Above : ℕ → List (ℕ × A) → Type 0
  Above n [] = Unit
  Above n ((k, a) ∷ rest) = (n < k) × Above k rest

  abbrev pub IsSorted : List (ℕ × A) → Type 0
  IsSorted [] = Unit
  IsSorted ((k, a) ∷ rest) = Above k rest

  pub IsSorted-of_Above : (n : ℕ) (m : List (ℕ × A)) → Above n m → IsSorted m
  IsSorted-of_Above n [] h = tt
  IsSorted-of_Above n ((k, a) ∷ rest) h = h.1

  Above-mono : (l n : ℕ) (m : List (ℕ × A)) → l < n → Above n m → Above l m
  Above-mono l n [] h a = tt
  Above-mono l n ((k, b) ∷ rest) h a = (omega arith, a.1)

  find_below : (k n : ℕ) (m : List (ℕ × A)) → Above n m → k < suc n → find k m ≡ none
  unfolding find
  find_below k n [] h l = refl
  find_below k n ((j, b) ∷ rest) h l = ground arith

  Above-assign :
      (k : ℕ) (a : A) (n : ℕ) (m : List (ℕ × A)) → Above n m → n < k → Above n (assign k a m)
  unfolding assign
  Above-assign k a n [] h l = (l, tt)
  Above-assign k a n ((j, b) ∷ rest) h l = ground (arith, Above-assign k a j rest h.1)

  Above-insert :
      (k : ℕ) (a : A) (n : ℕ) (m : List (ℕ × A)) → Above n m → n < k → Above n (insert k a m)
  unfolding insert
  Above-insert k a n [] h l = (l, tt)
  Above-insert k a n ((j, b) ∷ rest) h l = ground (arith, Above-insert k a j rest h.1)

  Above-erase : (k n : ℕ) (m : List (ℕ × A)) → Above n m → Above n (erase k m)
  unfolding erase
  Above-erase k n [] h = tt
  Above-erase k n ((j, b) ∷ rest) h = ground (arith, Above-erase k j rest h.1, Above-mono n j rest)

  pub assign-IsSorted : (k : ℕ) (a : A) (m : List (ℕ × A)) → IsSorted m → IsSorted (assign k a m)
  unfolding assign
  assign-IsSorted k a [] h = tt
  assign-IsSorted k a ((j, b) ∷ rest) h = ground (arith, Above-assign k a j rest h)

  pub insert-IsSorted : (k : ℕ) (a : A) (m : List (ℕ × A)) → IsSorted m → IsSorted (insert k a m)
  unfolding insert
  insert-IsSorted k a [] h = tt
  insert-IsSorted k a ((j, b) ∷ rest) h = ground (arith, Above-insert k a j rest h)

  pub erase-IsSorted : (k : ℕ) (m : List (ℕ × A)) → IsSorted m → IsSorted (erase k m)
  unfolding erase
  erase-IsSorted k [] h = tt
  erase-IsSorted k ((j, b) ∷ rest) h =
      ground (arith, Above-erase k j rest h, IsSorted-of_Above j rest h)

  pub find-assign :
      (k j : ℕ) (a : A) (m : List (ℕ × A))
      → IsSorted m
      → find j (assign k a m) ≡ (if k == j then some a else find j m)
  unfolding find assign
  find-assign k j a [] h = ground arith
  find-assign k j a ((i, b) ∷ rest) h =
      ground (arith, find-assign k j a rest (IsSorted-of_Above i rest h), find_below j i rest h)

  pub find-erase :
      (k j : ℕ) (m : List (ℕ × A))
      → IsSorted m
      → find j (erase k m) ≡ (if k == j then none else find j m)
  unfolding find erase
  find-erase k j [] h = ground arith
  find-erase k j ((i, b) ∷ rest) h =
      ground (arith, find-erase k j rest (IsSorted-of_Above i rest h), find_below j i rest h)

  pub find-insert :
      (k j : ℕ) (a : A) (m : List (ℕ × A))
      → IsSorted m
      → find j (insert k a m)
        ≡ (if k == j then (if is_some (find k m) then find k m else some a) else find j m)
  unfolding find insert
  find-insert k j a [] h = ground arith
  find-insert k j a ((i, b) ∷ rest) h =
      ground (arith, find-insert k j a rest (IsSorted-of_Above i rest h), find_below j i rest h)

  -- An entry is added exactly where there was none.
  pub length-insert :
      (k : ℕ) (a : A) (m : List (ℕ × A))
      → IsSorted m
      → length (insert k a m) ≡ (if is_some (find k m) then length m else suc (length m))
  unfolding find insert
  length-insert k a [] h = refl
  length-insert k a ((i, b) ∷ rest) h =
      ground (arith, length-insert k a rest (IsSorted-of_Above i rest h), find_below k i rest h)

  -- A key above all others goes to the end, whichever way it is written.
  pub append_key :
      (k : ℕ) (a : A) (m : List (ℕ × A))
      → All (λ e. e.0 < k) m
      → (assign k a m ≡ m ++ (k, a) ∷ []) × (insert k a m ≡ m ++ (k, a) ∷ [])
  unfolding assign insert
  append_key k a [] h = (refl, refl)
  append_key k a ((j, b) ∷ rest) h = ground (arith, append_key k a rest h.1)

  Below-append :
      (k : ℕ) (a : A) (n : ℕ) (m : List (ℕ × A))
      → All (λ e. e.0 < k) m
      → k < n
      → All (λ e. e.0 < n) (m ++ (k, a) ∷ [])
  Below-append k a n [] h l = (l, tt)
  Below-append k a n ((j, b) ∷ rest) h l = (omega arith, Below-append k a n rest h.1 l)

  -- Every key of `m` is below every key of `s`, where `s` is in order.
  abbrev pub Precedes : List (ℕ × A) → List (ℕ × A) → Type 0
  Precedes m [] = Unit
  Precedes m ((k, a) ∷ rest) = All (λ e. e.0 < k) m

  pub Precedes-append :
      (k : ℕ) (a : A) (m s : List (ℕ × A))
      → All (λ e. e.0 < k) m
      → Above k s
      → Precedes (m ++ (k, a) ∷ []) s
  Precedes-append k a m [] h l = tt
  Precedes-append k a m ((j, b) ∷ rest) h l = Below-append k a j m h l.0

  assign_all-append : (s m : List (ℕ × A)) → IsSorted s → Precedes m s → assign_all s m ≡ m ++ s
  unfolding assign_all
  assign_all-append [] m h p = sym (append-nil m)
  assign_all-append ((k, a) ∷ rest) m h p = rw ((append_key k a m p).0) (
      assign_all-append rest (m ++ (k, a) ∷ []) (IsSorted-of_Above k rest h)
        (Precedes-append k a m rest p h)
      ∙ append_assoc m ((k, a) ∷ []) rest)

  insert_all-append : (s m : List (ℕ × A)) → IsSorted s → Precedes m s → insert_all s m ≡ m ++ s
  unfolding insert_all
  insert_all-append [] m h p = sym (append-nil m)
  insert_all-append ((k, a) ∷ rest) m h p = rw ((append_key k a m p).1) (
      insert_all-append rest (m ++ (k, a) ∷ []) (IsSorted-of_Above k rest h)
        (Precedes-append k a m rest p h)
      ∙ append_assoc m ((k, a) ∷ []) rest)

  pub Precedes-nil : (s : List (ℕ × A)) → Precedes [] s
  Precedes-nil [] = tt
  Precedes-nil ((k, a) ∷ rest) = tt

  -- Written into an empty map, the entries of a map in order are that map again.
  pub fill_empty : (s : List (ℕ × A)) → IsSorted s → (assign_all s [] ≡ s) × (insert_all s [] ≡ s)
  fill_empty s h =
      (assign_all-append s [] h (Precedes-nil s), insert_all-append s [] h (Precedes-nil s))

  -- What is found after a map is written into another: the new entry, or else the old one.
  pub find-assign_all :
      (j : ℕ) (s m : List (ℕ × A))
      → IsSorted s
      → IsSorted m
      → find j (assign_all s m) ≡ (if is_some (find j s) then find j s else find j m)
  unfolding assign_all find
  find-assign_all j [] m h g = refl
  find-assign_all j ((k, a) ∷ rest) m h g = ground (
    arith,
    find-assign_all j rest (assign k a m) (IsSorted-of_Above k rest h) (assign-IsSorted k a m g),
    find-assign k j a m g,
    find_below j k rest h,
  )
