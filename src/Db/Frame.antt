-- ===== src/Db/Frame.antt =====
-- What the statements of `db_multi_key_data` (Sources/miniDHT_db.cpp) leave as it is: the rows of
-- the headers that they are not about.
use mathlib.Core.List.{append-nil}
use mini_dht.Base.{
  ℕ, ◌<◌, ◌≡◌, ◌≢◌, refl, sym, ◌∙◌, ap, Bool, true, false, not, List, [], ◌∷◌, ◌++◌, map, arith,
  Bytes, ◌==◌, if◌then◌else◌, All-weaken, filter_by, filter_by-append, count_by, Bool-cases, inl,
  inr,
}
use mini_dht.Base.Lists.{filter_by-map}
use mini_dht.Db.MultiKey.{
  HeaderRow, TimeRow, ItemRow, MultiKeyDb, has_title, id_in, delete_where, insert, update, rows_of,
}
use mini_dht.Db.Consistent.{IdsApart, IsConsistent, id_in_absent, new_header, insert_new}
use mini_dht.Db.Rows.{id_in-snoc_ne}

-- A test that no header passes together with another test.
abbrev pub Disjoint : (HeaderRow → Bool) → (HeaderRow → Bool) → Type 0
Disjoint p r = (h : HeaderRow) → p h ≡ true → r h ≡ false

filter_by_other {ℓ} :
    {A : Type ℓ} (p r : A → Bool) (xs : List A)
    → ((x : A) → p x ≡ true → r x ≡ false)
    → filter_by p (filter_by (λ x. not (r x)) xs) ≡ filter_by p xs
filter_by_other p r [] d = refl
filter_by_other p r (x ∷ xs) d = ground (arith, d x, filter_by_other p r xs d)

id_in_other :
    (p r : HeaderRow → Bool) (i : ℕ) (hs : List HeaderRow)
    → Disjoint p r
    → id_in i p (filter_by (λ h. not (r h)) hs) ≡ id_in i p hs
unfolding id_in
id_in_other p r i [] d = refl
id_in_other p r i (h ∷ hs) d = ground (arith, d h, id_in_other p r i hs d)

-- With distinct ids, no id is among those of two tests that exclude each other.
id_in-Disjoint :
    (p r : HeaderRow → Bool) (i : ℕ) (hs : List HeaderRow)
    → Disjoint p r
    → IdsApart hs
    → id_in i p hs ≡ true
    → id_in i r hs ≡ false
unfolding id_in
id_in-Disjoint p r i [] d a h = refl
id_in-Disjoint p r i (g ∷ hs) d a h = elim (Bool-cases (g.id == i)) [
  | inl own ↦
      let same : g.id ≡ i = ground arith in
      let rest : (q : HeaderRow → Bool) → id_in i q hs ≡ false = λ q.
        id_in_absent q i hs
          (All-weaken {P = λ f. f.id ≢ g.id} (λ f n e. n (e ∙ sym same)) hs a.0) in
      ground (arith, d g, rest p, rest r)
  | inr other ↦ ground (arith, id_in-Disjoint p r i hs d a.1)
]

filter_by_pointwise {ℓ} :
    {A : Type ℓ} (p q : A → Bool) (xs : List A)
    → ((x : A) → p x ≡ q x)
    → filter_by p xs ≡ filter_by q xs
filter_by_pointwise p q [] e = refl
filter_by_pointwise p q (x ∷ xs) e = ground (arith, e x, filter_by_pointwise p q xs e)

map_same {ℓ} :
    {A : Type ℓ} (q : A → Bool) (u : A → A) (xs : List A)
    → ((x : A) → q x ≡ true → u x ≡ x)
    → map u (filter_by q xs) ≡ filter_by q xs
map_same q u [] e = refl
map_same q u (x ∷ xs) e = elim (Bool-cases (q x)) [
  | inl hit ↦ rw (hit, e x hit) (ap (◌∷◌ x) (map_same q u xs e))
  | inr miss ↦ rw miss (map_same q u xs e)
]

pub map_agree {ℓ} :
    {A : Type ℓ} (q : A → Bool) (u v : A → A) (xs : List A)
    → ((x : A) → q x ≡ true → u x ≡ v x)
    → map u (filter_by q xs) ≡ map v (filter_by q xs)
map_agree q u v [] e = refl
map_agree q u v (x ∷ xs) e = elim (Bool-cases (q x)) [
  | inl hit ↦ rw (hit, e x hit) (ap (◌∷◌ (v x)) (map_agree q u v xs e))
  | inr miss ↦ rw miss (map_agree q u v xs e)
]

-- The statement of `update` on one row.
abbrev pub updated : Bytes → Bytes → ℕ → ℕ → List HeaderRow → TimeRow → TimeRow
updated k title time ttl hs t =
    if id_in t.time_id (has_title k title) hs then record t { time = time; ttl = ttl } else t

updated_id :
    (k title : Bytes) (time ttl : ℕ) (hs : List HeaderRow) (t : TimeRow)
    → (updated k title time ttl hs t).time_id ≡ t.time_id
updated_id k title time ttl hs t = elim (Bool-cases (id_in t.time_id (has_title k title) hs)) [
  | inl hit ↦ rw hit refl
  | inr miss ↦ rw miss refl
]

module _ (p : HeaderRow → Bool) where
  -- Rows that refer to headers by `f`, before and after a deletion.
  kept_rows {ℓ} :
      {A : Type ℓ} (f : A → ℕ) (r : HeaderRow → Bool) (hs : List HeaderRow) (xs : List A)
      → Disjoint p r
      → IdsApart hs
      → filter_by
          (λ x. id_in (f x) p (filter_by (λ h. not (r h)) hs))
          (filter_by (λ x. not (id_in (f x) r hs)) xs)
        ≡ filter_by (λ x. id_in (f x) p hs) xs
  kept_rows {A = A} f r hs xs d a =
      filter_by_pointwise (λ (x : A). id_in (f x) p (filter_by (λ h. not (r h)) hs))
        (λ (x : A). id_in (f x) p hs) (filter_by (λ (x : A). not (id_in (f x) r hs)) xs)
        (λ x. id_in_other p r (f x) hs d)
      ∙ filter_by_other (λ (x : A). id_in (f x) p hs) (λ (x : A). id_in (f x) r hs) xs
          (λ x. id_in-Disjoint p r (f x) hs d a)

  pub rows_of-delete_where :
      (r : HeaderRow → Bool) (db : MultiKeyDb)
      → Disjoint p r
      → IsConsistent db
      → rows_of p (delete_where r db) ≡ rows_of p db
  unfolding rows_of delete_where
  rows_of-delete_where r db d c =
      rw
        (
          filter_by_other p r db.headers d,
          kept_rows (λ (t : TimeRow). t.time_id) r db.headers db.times d c.apart,
          kept_rows (λ (i : ItemRow). i.item_id) r db.headers db.items d c.apart,
        )
        refl

  -- The same with one header and one row more.
  added_rows {ℓ} :
      {A : Type ℓ} (f : A → ℕ) (g : HeaderRow) (x : A) (hs : List HeaderRow) (xs : List A)
      → p g ≡ false
      → id_in (f x) p hs ≡ false
      → filter_by (λ y. id_in (f y) p (hs ++ g ∷ [])) (xs ++ x ∷ [])
        ≡ filter_by (λ y. id_in (f y) p hs) xs
  added_rows {A = A} f g x hs xs other absent =
      let q = λ (y : A). id_in (f y) p hs in
      filter_by_pointwise (λ (y : A). id_in (f y) p (hs ++ g ∷ [])) q (xs ++ x ∷ [])
        (λ y. id_in-snoc_ne p g (f y) hs other)
      ∙ filter_by-append q xs (x ∷ [])
      ∙ ap (λ (b : Bool). filter_by q xs ++ (if b then x ∷ [] else [])) absent
      ∙ append-nil (filter_by q xs)

  pub rows_of-insert_other :
      (k title : Bytes) (time ttl : ℕ) (blob : Bytes) (db : MultiKeyDb)
      → count_by (has_title k title) db.headers ≡ 0
      → IsConsistent db
      → p (new_header k title time ttl blob db) ≡ false
      → rows_of p (insert k title time ttl blob db) ≡ rows_of p db
  unfolding rows_of
  rows_of-insert_other k title time ttl blob db new c other =
      let g = new_header k title time ttl blob db in
      let absent : id_in db.next_id p db.headers ≡ false = id_in_absent p db.next_id db.headers (
        All-weaken {P = λ h. h.id < db.next_id} (λ h less e. absurd (omega (arith, less, e)))
          db.headers c.fresh) in
      let heads : filter_by p (db.headers ++ g ∷ []) ≡ filter_by p db.headers =
        filter_by-append p db.headers (g ∷ [])
        ∙ ap (λ (b : Bool). filter_by p db.headers ++ (if b then g ∷ [] else [])) other
        ∙ append-nil (filter_by p db.headers) in
      rw
        (
          insert_new k title time ttl blob db new,
          heads,
          added_rows (λ (t : TimeRow). t.time_id) g
              (record { time_id = db.next_id; time = time; ttl = ttl }) db.headers db.times other
              absent,
          added_rows (λ (i : ItemRow). i.item_id) g (record { item_id = db.next_id; blob = blob })
              db.headers db.items other absent,
        )
        refl

  -- The times that `update` leaves to a test are those that it had, each updated.
  pub times-update :
      (k title : Bytes) (time ttl : ℕ) (hs : List HeaderRow) (ts : List TimeRow)
      → filter_by (λ t. id_in t.time_id p hs) (map (updated k title time ttl hs) ts)
        ≡ map (updated k title time ttl hs) (filter_by (λ t. id_in t.time_id p hs) ts)
  times-update k title time ttl hs ts =
      filter_by-map (λ (t : TimeRow). id_in t.time_id p hs) (updated k title time ttl hs) ts
      ∙ ap (map (updated k title time ttl hs)) (
          filter_by_pointwise (λ (t : TimeRow). id_in (updated k title time ttl hs t).time_id p hs)
            (λ (t : TimeRow). id_in t.time_id p hs) ts
            (λ t. ap (λ (i : ℕ). id_in i p hs) (updated_id k title time ttl hs t)))

  pub rows_of-update_other :
      (k title : Bytes) (time ttl : ℕ) (db : MultiKeyDb)
      → Disjoint p (has_title k title)
      → IsConsistent db
      → rows_of p (update k title time ttl db) ≡ rows_of p db
  unfolding rows_of update
  rows_of-update_other k title time ttl db d c =
      let left : filter_by (λ t. id_in t.time_id p db.headers)
            (map (updated k title time ttl db.headers) db.times)
          ≡ filter_by (λ t. id_in t.time_id p db.headers) db.times =
        times-update k title time ttl db.headers db.times
        ∙ map_same (λ (t : TimeRow). id_in t.time_id p db.headers)
            (updated k title time ttl db.headers) db.times
            (λ t hit.
              rw (id_in-Disjoint p (has_title k title) t.time_id db.headers d c.apart hit) refl) in
      rw left refl
