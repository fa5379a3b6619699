-- ===== src/Bucket/Evict.antt =====
-- Which contact `add_contact` drops from a full bucket: the loop over `map_time_ite`.
use mini_dht.Base.{
  ℕ, suc, ◌+◌, ◌≤◌, ◌<◌, ◌≡◌, refl, true, List, [], ◌∷◌, some, arith, ltb, ◌==◌, All, Bool-cases,
  inl, inr, Map,
}
use native.Mathlib.Nat.{zero-add}
use mini_dht.Base.Maps.{insert_or_assign}
use mini_dht.Bucket.Multimap.{count, erase_at, entry_at}
use mini_dht.Bucket.{Entry, Order, time_read, time_positions, erase_first, evict}

-- The number of each entry and the time that is read for it.
abbrev pub times : Order → List Entry → List (ℕ × ℕ)
times order [] = []
times order (e ∷ es) = (e.0, time_read order e es) ∷ times order es

module _ {ℓ} (P : ℕ × ℕ → Type ℓ) where
  All-insert_or_assign :
      (t i : ℕ) (m : Map ℕ ℕ) → P (t, i) → All P m → All P (insert_or_assign ltb t i m)
  unfolding insert_or_assign
  All-insert_or_assign t i [] p h = (p, tt)
  All-insert_or_assign t i ((u, j) ∷ m) p h = elim (Bool-cases (ltb u t)) [
    | inl before ↦ rw before (h.0, All-insert_or_assign t i m p h.1)
    | inr other ↦ elim (Bool-cases (ltb t u)) [
      | inl after ↦ rw (other, after) (p, h)
      | inr same ↦ rw (other, same) (p, h.1)
    ]
  ]

  time_positions-All :
      (order : Order) (n pos : ℕ) (es : List Entry) (m : Map ℕ ℕ)
      → ((j : ℕ) (e : Entry) (t : ℕ)
          → entry_at j es ≡ some e
          → entry_at j (times order es) ≡ some (e.0, t)
          → (e.0 == n) ≡ true
          → P (t, pos + j))
      → All P m
      → All P (time_positions order n pos es m)
  unfolding time_positions entry_at
  time_positions-All order n pos [] m f h = h
  time_positions-All order n pos (e ∷ es) m f h =
      time_positions-All order n (suc pos) es _ rest (elim (Bool-cases (e.0 == n)) [
        | inl hit ↦ rw hit (
            All-insert_or_assign (time_read order e es) pos m
              (rw pos_zero at (f 0 e (time_read order e es) refl refl hit)) h)
        | inr miss ↦ rw miss h
      ])
    where
      pos_zero : pos + 0 ≡ pos
      pos_zero = omega arith

      rest :
          (j : ℕ) (g : Entry) (t : ℕ)
          → entry_at j es ≡ some g
          → entry_at j (times order es) ≡ some (g.0, t)
          → (g.0 == n) ≡ true
          → P (t, suc pos + j)
      rest j g t at read hit =
          let shift : pos + suc j ≡ suc pos + j = omega arith in
          rw shift at (f (suc j) g t at read hit)

-- The first time of the map is at most `x`.
abbrev HeadLe : ℕ → Map ℕ ℕ → Type 0
HeadLe x [] = ⊥
HeadLe x ((t, i) ∷ m) = t ≤ x

HeadLe-insert_or_assign_self : (t i : ℕ) (m : Map ℕ ℕ) → HeadLe t (insert_or_assign ltb t i m)
unfolding insert_or_assign
HeadLe-insert_or_assign_self t i [] = omega arith
HeadLe-insert_or_assign_self t i ((u, j) ∷ m) = ground arith

HeadLe-insert_or_assign :
    (x t i : ℕ) (m : Map ℕ ℕ) → HeadLe x m → HeadLe x (insert_or_assign ltb t i m)
unfolding insert_or_assign
HeadLe-insert_or_assign x t i [] h = absurd h
HeadLe-insert_or_assign x t i ((u, j) ∷ m) h = ground arith

HeadLe-time_positions :
    (order : Order) (x n pos : ℕ) (es : List Entry) (m : Map ℕ ℕ)
    → HeadLe x m
    → HeadLe x (time_positions order n pos es m)
unfolding time_positions
HeadLe-time_positions order x n pos [] m h = h
HeadLe-time_positions order x n pos (e ∷ es) m h =
    HeadLe-time_positions order x n (suc pos) es _ (elim (Bool-cases (e.0 == n)) [
      | inl hit ↦ rw hit (HeadLe-insert_or_assign x (time_read order e es) pos m h)
      | inr miss ↦ rw miss h
    ])

time_positions-HeadLe :
    (order : Order) (n pos : ℕ) (es : List Entry) (m : Map ℕ ℕ)
    → All (λ r. (r.0 == n) ≡ true → HeadLe (r.1) (time_positions order n pos es m)) (times order es)
unfolding time_positions
time_positions-HeadLe order n pos [] m = tt
time_positions-HeadLe order n pos (e ∷ es) m = (
  λ hit.
      HeadLe-time_positions order (time_read order e es) n (suc pos) es _
        (rw hit (HeadLe-insert_or_assign_self (time_read order e es) pos m)),
  time_positions-HeadLe order n (suc pos) es _,
)

-- The entry at a position, that has the number `n`, and for which the earliest time is read among
-- those that have it.
pub record Earliest (order : Order) (n : ℕ) (es : List Entry) (i : ℕ) : Type 0 where
  pub entry : Entry
  pub found : entry_at i es ≡ some entry
  pub numbered : (entry.0 == n) ≡ true
  pub time : ℕ
  pub read : entry_at i (times order es) ≡ some (entry.0, time)
  pub earliest : All (λ r. (r.0 == n) ≡ true → time ≤ r.1) (times order es)

-- What is known of a map entry: its position holds a contact of the bucket, for which its time is
-- read.
abbrev Holds : Order → ℕ → List Entry → ℕ × ℕ → Type 0
Holds order n es (t, i) =
    (e : Entry) × (entry_at i es ≡ some e)
    × (entry_at i (times order es) ≡ some (e.0, t))
    × ((e.0 == n) ≡ true)

erase_first-Earliest :
    (order : Order) (n : ℕ) (es : List Entry) (m : Map ℕ ℕ)
    → 0 < count n es
    → All (Holds order n es) m
    → All (λ r. (r.0 == n) ≡ true → HeadLe (r.1) m) (times order es)
    → (i : ℕ) × Earliest order n es i × (erase_first m es ≡ erase_at i es)
unfolding erase_first count
erase_first-Earliest order n es [] pos holds heads = absurd (none_counted es pos heads)
  where
    none_counted :
        (fs : List Entry) → 0 < count n fs → All (λ r. (r.0 == n) ≡ true → ⊥) (times order fs) → ⊥
    none_counted [] h a = omega arith
    none_counted (f ∷ fs) h a = elim (Bool-cases (f.0 == n)) [
      | inl hit ↦ a.0 hit
      | inr miss ↦ none_counted fs (rw miss at h) a.1
    ]
erase_first-Earliest order n es ((t, i) ∷ m) pos holds heads =
    let (e, at, read, hit) = holds.0 in
    (
      i,
      record { entry = e; found = at; numbered = hit; time = t; read = read; earliest = heads },
      refl,
    )

-- Where some entry has the number, `evict` erases exactly one entry: one with that number, for
-- which the time that is read is the earliest that is read for an entry with it. That is the
-- entry's own time where the time is read before `ite++`, and otherwise the time of the entry
-- behind it.
pub evict-Earliest :
    (order : Order) (n : ℕ) (es : List Entry)
    → 0 < count n es
    → (i : ℕ) × Earliest order n es i × (evict order n es ≡ erase_at i es)
unfolding evict
evict-Earliest order n es h =
    erase_first-Earliest order n es (time_positions order n 0 es []) h
      (time_positions-All (Holds order n es) order n 0 es []
        (λ j e t at read hit. (e, rw (zero-add j) at, rw (zero-add j) read, hit)) tt)
      (time_positions-HeadLe order n 0 es [])
