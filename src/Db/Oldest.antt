-- ===== src/Db/Oldest.antt =====
-- `remove_oldest`: it deletes one header, and which one the statement leaves open.
use mathlib.Core.Path.{subst}
use mini_dht.Base.{
  ℕ, ◌+◌, ◌≤◌, ◌<◌, ◌≡◌, refl, sym, ◌∙◌, ap, ◌≢◌, ◌⊎◌, true, false, not, ◌&&◌, List, [], ◌∷◌, ◌++◌,
  map, Option, none, some, arith, ltb, ◌==◌, ==_iff, if◌then◌else◌, All, length, filter_by, inl,
  inr,
}
use mini_dht.Base.Lists.{Any, Any-append_left, Any-append_right}
use mini_dht.Db.MultiKey.{HeaderRow, TimeRow, MultiKeyDb, cross, delete_where, remove_oldest, size}
use mini_dht.Db.Consistent.{IdsApart, IsConsistent, header_ids, time_ids, delete_where-IsConsistent}

abbrev pub OldRow : Type 0
OldRow = HeaderRow × TimeRow

-- A row that `ORDER BY data_time.time ASC` can put first.
pub record IsEarliest (rows : List OldRow) (r : OldRow) : Type 0 where
  pub present : Any (λ x. x ≡ r) rows
  pub earliest : All (λ x. r.1.time ≤ x.1.time) rows

-- What the engine promises of `ORDER BY ... LIMIT 1`: no row of an empty table, and otherwise some
-- row with the least time.
pub record IsOrdering (first_row : List OldRow → Option OldRow) : Type 0 where
  pub empty : first_row [] ≡ none
  pub first :
      (x : OldRow) (rows : List OldRow)
      → (r : OldRow) × (first_row (x ∷ rows) ≡ some r) × IsEarliest (x ∷ rows) r

Any-append_split {ℓ} :
    {A : Type ℓ} (P : A → Type 0) (xs ys : List A) → Any P (xs ++ ys) → Any P xs ⊎ Any P ys
Any-append_split P [] ys h = inr h
Any-append_split P (x ∷ xs) ys (inl here) = inl (inl here)
Any-append_split P (x ∷ xs) ys (inr there) = elim (Any-append_split P xs ys there) [
  | inl l ↦ inl (inr l)
  | inr r ↦ inr r
]

-- The header and the time of a row of the product.
cross-parts :
    (h : HeaderRow) (t : TimeRow) (hs : List HeaderRow) (ts : List TimeRow)
    → Any {A = OldRow} (λ x. x ≡ (h, t)) (cross hs ts)
    → Any (λ g. g ≡ h) hs × Any (λ s. s ≡ t) ts
unfolding cross
cross-parts h t [] ts at = absurd at
cross-parts h t (g ∷ hs) ts at =
    elim (Any-append_split (λ x. x ≡ (h, t)) (map (λ s. (g, s)) ts) (cross hs ts) at) [
      | inl here ↦ let (e, s) = row_here g ts here in (inl e, s)
      | inr there ↦ let (a, b) = cross-parts h t hs ts there in (inr a, b)
    ]
  where
    row_here :
        (f : HeaderRow) (ss : List TimeRow)
        → Any {A = OldRow} (λ x. x ≡ (h, t)) (map (λ s. (f, s)) ss)
        → (f ≡ h) × Any (λ s. s ≡ t) ss
    row_here f [] a = absurd a
    row_here f (s ∷ ss) (inl e) = (ap (λ (x : OldRow). x.0) e, inl (ap (λ (x : OldRow). x.1) e))
    row_here f (s ∷ ss) (inr a) = let (e, b) = row_here f ss a in (e, inr b)

cross-Any :
    (h : HeaderRow) (t : TimeRow) (hs : List HeaderRow) (ts : List TimeRow)
    → Any (λ g. g ≡ h) hs
    → Any (λ s. s ≡ t) ts
    → Any {A = OldRow} (λ x. x ≡ (h, t)) (cross hs ts)
unfolding cross
cross-Any h t [] ts a b = absurd a
cross-Any h t (g ∷ hs) ts (inl e) b =
    Any-append_left (λ x. x ≡ (h, t)) (map (λ s. (g, s)) ts) (cross hs ts) (row ts b)
  where
    row :
        (ss : List TimeRow)
        → Any (λ s. s ≡ t) ss
        → Any {A = OldRow} (λ x. x ≡ (h, t)) (map (λ s. (g, s)) ss)
    row [] c = absurd c
    row (s ∷ ss) (inl f) = inl (cc)
    row (s ∷ ss) (inr c) = inr (row ss c)
cross-Any h t (g ∷ hs) ts (inr a) b =
    Any-append_right (λ x. x ≡ (h, t)) (map (λ s. (g, s)) ts) (cross hs ts)
      (cross-Any h t hs ts a b)

-- With distinct ids a deletion by id takes one header.
length-delete_id :
    (h : HeaderRow) (hs : List HeaderRow)
    → IdsApart hs
    → Any (λ g. g ≡ h) hs
    → length (filter_by (λ g. not (g.id == h.id)) hs) + 1 ≡ length hs
length-delete_id h [] a at = absurd at
length-delete_id h (g ∷ hs) a (inl e) =
    let same : (g.id == h.id) ≡ true = (==_iff g.id h.id).1 (ap (λ (x : HeaderRow). x.id) e) in
    rw same (omega (arith, ap length (all_stay hs (rw e at a.0))))
  where
    all_stay :
        (fs : List HeaderRow)
        → All (λ f. f.id ≢ h.id) fs
        → filter_by (λ f. not (f.id == h.id)) fs ≡ fs
    all_stay [] b = refl
    all_stay (f ∷ fs) b = ground (arith, b.0, all_stay fs b.1)
length-delete_id h (g ∷ hs) a (inr at) =
    let other : (g.id == h.id) ≡ false = apart g hs a.0 at in
    rw other (omega (arith, length-delete_id h hs a.1 at))
  where
    apart :
        (f : HeaderRow) (fs : List HeaderRow)
        → All (λ x. x.id ≢ f.id) fs
        → Any (λ x. x ≡ h) fs
        → (f.id == h.id) ≡ false
    apart f [] b c = absurd c
    apart f (x ∷ fs) b (inl e) = ground (arith, b.0, ap (λ (y : HeaderRow). y.id) e)
    apart f (x ∷ fs) b (inr c) = apart f fs b.1 c

rows_cons :
    (db : MultiKeyDb)
    → IsConsistent db
    → 0 < size db
    → (x : OldRow) × (rows : List OldRow) × (cross db.headers db.times ≡ x ∷ rows)
unfolding size cross
rows_cons db c h = non_empty db.headers db.times c.times h
  where
    non_empty :
        (hs : List HeaderRow) (ts : List TimeRow)
        → time_ids ts ≡ header_ids hs
        → 0 < length hs
        → (x : OldRow) × (rows : List OldRow) × (cross hs ts ≡ x ∷ rows)
    non_empty [] ts e p = absurd (omega arith)
    non_empty (g ∷ hs) [] e p = absurd (omega (arith, ap length e))
    non_empty (g ∷ hs) (t ∷ ts) e p = ((g, t), map (λ s. (g, s)) ts ++ cross hs (t ∷ ts), refl)

size-delete_id :
    (h : HeaderRow) (db : MultiKeyDb)
    → IsConsistent db
    → Any (λ g. g ≡ h) db.headers
    → size (delete_where (λ g. g.id == h.id) db) + 1 ≡ size db
unfolding size delete_where
size-delete_id h db c at = length-delete_id h db.headers c.apart at

module _ (first_row : List OldRow → Option OldRow) (order : IsOrdering first_row) where
  -- On a consistent store that is not empty, with a database that orders its rows as it documents,
  -- `remove_oldest` deletes exactly one header and leaves a consistent store.
  pub remove_oldest-size :
      (db : MultiKeyDb)
      → IsConsistent db
      → 0 < size db
      → (size (remove_oldest first_row db) + 1 ≡ size db)
        × IsConsistent (remove_oldest first_row db)
  unfolding remove_oldest
  remove_oldest-size db c pos =
      let (x, rows, e) = rows_cons db c pos in
      let (r, found, early) = order.first x rows in
      let at : Any (λ y. y ≡ r) (cross db.headers db.times) =
        subst (Any (λ y. y ≡ r)) (sym e) early.present in
      let (here, _) = cross-parts r.0 r.1 db.headers db.times at in
      rw (e, found, remove_oldest)
        (size-delete_id r.0 db c here, delete_where-IsConsistent (λ g. g.id == r.0.id) db c)

-- An engine that, among the rows with the least time, prefers those of one header.
better : ℕ → OldRow → OldRow → OldRow
better i x y =
    if ltb y.1.time x.1.time
    then y
    else if x.1.time == y.1.time && (y.0.id == i && not (x.0.id == i))
    then y
    else x

best : ℕ → OldRow → List OldRow → OldRow
best i x [] = x
best i x (y ∷ ys) = best i (better i x y) ys

pub preferring : ℕ → List OldRow → Option OldRow
preferring i [] = none
preferring i (x ∷ rows) = some (best i x rows)

better-le :
    (i : ℕ) (x y : OldRow) → ((better i x y).1.time ≤ x.1.time) × ((better i x y).1.time ≤ y.1.time)
unfolding better
better-le i x y = ground arith

better-either : (i : ℕ) (x y : OldRow) → (better i x y ≡ x) ⊎ (better i x y ≡ y)
unfolding better
better-either i x y = ground arith

best-IsEarliest : (i : ℕ) (x : OldRow) (rows : List OldRow) → IsEarliest (x ∷ rows) (best i x rows)
unfolding best
best-IsEarliest i x [] = record { present = inl refl; earliest = (omega arith, tt) }
best-IsEarliest i x (y ∷ ys) =
    let b = best-IsEarliest i (better i x y) ys in
    let (le_x, le_y) = better-le i x y in
    record {
      present = elim b.present [
        | inl here ↦ elim (better-either i x y) [
          | inl ex ↦ inl (sym ex ∙ here)
          | inr ey ↦ inr (inl (sym ey ∙ here))
        ]
        | inr there ↦ inr (inr there)
      ];
      earliest = (omega (arith, b.earliest.0), (omega (arith, b.earliest.0), b.earliest.1));
    }

pub preferring-IsOrdering : (i : ℕ) → IsOrdering (preferring i)
unfolding preferring
preferring-IsOrdering i = record {
  empty = refl;
  first = λ x rows. (best i x rows, refl, best-IsEarliest i x rows);
}

better-preferred :
    (i t : ℕ) (x y : OldRow)
    → t ≤ x.1.time
    → t ≤ y.1.time
    → ((x.0.id ≡ i) × (x.1.time ≡ t)) ⊎ ((y.0.id ≡ i) × (y.1.time ≡ t))
    → ((better i x y).0.id ≡ i) × ((better i x y).1.time ≡ t)
unfolding better
better-preferred i t x y p q (inl h) = ground arith
better-preferred i t x y p q (inr h) = ground arith

-- A row of the preferred header with the least time wins.
best-preferred :
    (i t : ℕ) (x : OldRow) (rows : List OldRow)
    → All (λ y. t ≤ y.1.time) (x ∷ rows)
    → Any (λ y. (y.0.id ≡ i) × (y.1.time ≡ t)) (x ∷ rows)
    → (best i x rows).0.id ≡ i
unfolding best
best-preferred i t x [] least (inl h) = h.0
best-preferred i t x [] least (inr h) = absurd h
best-preferred i t x (y ∷ ys) least at =
    best-preferred i t (better i x y) ys (least_time (better-either i x y), least.1.1)
      (elim at [
        | inl h ↦ inl (better-preferred i t x y least.0 least.1.0 (inl h))
        | inr (inl h) ↦ inl (better-preferred i t x y least.0 least.1.0 (inr h))
        | inr (inr there) ↦ inr there
      ])
  where
    least_time : (better i x y ≡ x) ⊎ (better i x y ≡ y) → t ≤ (better i x y).1.time
    least_time (inl e) = rw e least.0
    least_time (inr e) = rw e least.1.0

Any-weaken :
    {P Q : OldRow → Type 0} (f : (x : OldRow) → P x → Q x) (rows : List OldRow)
    → Any P rows
    → Any Q rows
Any-weaken f [] h = h
Any-weaken f (x ∷ rows) (inl h) = inl (f x h)
Any-weaken f (x ∷ rows) (inr h) = inr (Any-weaken f rows h)

some_header : (h : HeaderRow) (hs : List HeaderRow) → Any (λ g. g ≡ h) hs → 0 < length hs
some_header h [] at = absurd at
some_header h (g ∷ hs) at = omega arith

-- The headers and the times are not joined on the id, so whichever header a consistent store
-- holds, also the newest, there is a database that orders its rows as it documents and for which
-- `remove_oldest` deletes that header.
pub remove_oldest_arbitrary :
    (db : MultiKeyDb) (h : HeaderRow)
    → IsConsistent db
    → Any (λ g. g ≡ h) db.headers
    → (first_row : List OldRow → Option OldRow) × IsOrdering first_row
      × (remove_oldest first_row db ≡ delete_where (λ g. g.id == h.id) db)
unfolding remove_oldest size preferring
remove_oldest_arbitrary db h c at =
    let (x, rows, e) = rows_cons db c (some_header h db.headers at) in
    let b = best-IsEarliest h.id x rows in
    let r = best h.id x rows in
    let in_rows : Any (λ y. y ≡ r) (cross db.headers db.times) =
      subst (Any (λ y. y ≡ r)) (sym e) b.present in
    let (_, time_row) = cross-parts r.0 r.1 db.headers db.times in_rows in
    let row : Any {A = OldRow} (λ y. y ≡ (h, r.1)) (x ∷ rows) =
      subst (Any {A = OldRow} (λ y. y ≡ (h, r.1))) e
        (cross-Any h r.1 db.headers db.times at time_row) in
    let same : r.0.id ≡ h.id = best-preferred h.id r.1.time x rows b.earliest (
      Any-weaken (λ y q. (ap (λ (z : OldRow). z.0.id) q, ap (λ (z : OldRow). z.1.time) q))
        (x ∷ rows) row) in
    (
      preferring h.id,
      preferring-IsOrdering h.id,
      rw (e, remove_oldest) (ap (λ i. delete_where (λ g. g.id == i) db) same),
    )
