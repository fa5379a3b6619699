-- ===== src/Bucket/Multimap.antt =====
-- `std::multimap<unsigned int, V>` as a list of entries in iteration order, and what insertion and
-- erasure keep.
use mini_dht.Base.{
  ℕ, zero, suc, ◌≤◌, ◌≡◌, List, [], ◌∷◌, Option, none, some, arith, ltb, ◌==◌, if◌then◌else◌, All,
  All-weaken, count_by, Bool-cases, inl, inr,
}

module _ {ℓ} {V : Type ℓ} where
  -- `insert`: behind the entries with the same number.
  unfoldable pub insert : ℕ → V → List (ℕ × V) → List (ℕ × V)
  insert n v [] = (n, v) ∷ []
  insert n v (e ∷ es) = if ltb n e.0 then (n, v) ∷ e ∷ es else e ∷ insert n v es

  unfoldable pub count : ℕ → List (ℕ × V) → ℕ
  count n = count_by (λ e. e.0 == n)

  -- `erase` at the position of an iterator.
  unfoldable pub erase_at : ℕ → List (ℕ × V) → List (ℕ × V)
  erase_at i [] = []
  erase_at zero (e ∷ es) = es
  erase_at (suc i) (e ∷ es) = e ∷ erase_at i es

  unfoldable pub entry_at : ℕ → List (ℕ × V) → Option (ℕ × V)
  entry_at i [] = none
  entry_at zero (e ∷ es) = some e
  entry_at (suc i) (e ∷ es) = entry_at i es

  -- Iteration goes by rising numbers.
  abbrev pub IsSorted : List (ℕ × V) → Type 0
  IsSorted [] = Unit
  IsSorted (e ∷ es) = All (λ f. e.0 ≤ f.0) es × IsSorted es

  pub count-insert :
      (m n : ℕ) (v : V) (es : List (ℕ × V))
      → count m (insert n v es) ≡ (if n == m then suc (count m es) else count m es)
  unfolding count insert
  count-insert m n v [] = ground arith
  count-insert m n v (e ∷ es) = ground (arith, count-insert m n v es)

  pub All-insert {κ} :
      (P : ℕ × V → Type κ) (n : ℕ) (v : V) (es : List (ℕ × V))
      → P (n, v)
      → All P es
      → All P (insert n v es)
  unfolding insert
  All-insert P n v [] p h = (p, tt)
  All-insert P n v (e ∷ es) p h = elim (Bool-cases (ltb n e.0)) [
    | inl before ↦ rw before (p, h)
    | inr behind ↦ rw behind (h.0, All-insert P n v es p h.1)
  ]

  pub insert-IsSorted : (n : ℕ) (v : V) (es : List (ℕ × V)) → IsSorted es → IsSorted (insert n v es)
  unfolding insert
  insert-IsSorted n v [] h = (tt, tt)
  insert-IsSorted n v (e ∷ es) h = elim (Bool-cases (ltb n e.0)) [
    | inl before ↦
        rw before ((ground arith, All-weaken {P = λ f. e.0 ≤ f.0} (λ f le. ground arith) es h.0), h)
    | inr behind ↦
        rw behind
          (All-insert (λ f. e.0 ≤ f.0) n v es (ground arith) h.0, insert-IsSorted n v es h.1)
  ]

  pub All-erase_at {κ} :
      (P : ℕ × V → Type κ) (i : ℕ) (es : List (ℕ × V)) → All P es → All P (erase_at i es)
  unfolding erase_at
  All-erase_at P i [] h = tt
  All-erase_at P zero (e ∷ es) h = h.1
  All-erase_at P (suc i) (e ∷ es) h = (h.0, All-erase_at P i es h.1)

  pub erase_at-IsSorted : (i : ℕ) (es : List (ℕ × V)) → IsSorted es → IsSorted (erase_at i es)
  unfolding erase_at
  erase_at-IsSorted i [] h = tt
  erase_at-IsSorted zero (e ∷ es) h = h.1
  erase_at-IsSorted (suc i) (e ∷ es) h =
      (All-erase_at (λ f. e.0 ≤ f.0) i es h.0, erase_at-IsSorted i es h.1)

  -- Erasing the entry at a position takes one from the count of its number, and no other.
  pub count-erase_at :
      (m i : ℕ) (es : List (ℕ × V)) (e : ℕ × V)
      → entry_at i es ≡ some e
      → count m es ≡ (if e.0 == m then suc (count m (erase_at i es)) else count m (erase_at i es))
  unfolding count erase_at entry_at
  count-erase_at m i [] e h = cc
  count-erase_at m zero (x ∷ es) e h = ground arith
  count-erase_at m (suc i) (x ∷ es) e h = ground (arith, count-erase_at m i es e h)
