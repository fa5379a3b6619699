-- ===== src/Db/Consistent.antt =====
-- The invariant of the three tables, and what keeps it.
use mathlib.Core.List.{map-append}
use mini_dht.Base.{
  ℕ, suc, ◌<◌, ◌≡◌, refl, sym, ◌∙◌, ap, ◌≢◌, Bool, true, false, not, List, [], ◌∷◌, ◌++◌, map,
  arith, Bytes, str_eq_self, if◌then◌else◌, All, All-append, All-weaken, filter_by,
  filter_by-append, count_by, Bool-cases, inl, inr,
}
use mini_dht.Base.Lists.{
  All-filter_by, filter_by_congr, filter_by-map, filter_by_none, count_by_none,
}
use mini_dht.Db.MultiKey.{
  HeaderRow, TimeRow, ItemRow, MultiKeyDb, has_title, id_in, delete_where, insert, update, empty_db,
}

abbrev pub header_ids : List HeaderRow → List ℕ
header_ids = map (λ h. h.id)

abbrev pub time_ids : List TimeRow → List ℕ
time_ids = map (λ t. t.time_id)

abbrev pub item_ids : List ItemRow → List ℕ
item_ids = map (λ i. i.item_id)

-- No two headers have one id.
abbrev pub IdsApart : List HeaderRow → Type 0
IdsApart [] = Unit
IdsApart (h ∷ hs) = All (λ g. g.id ≢ h.id) hs × IdsApart hs

-- No two headers have the same key and title.
abbrev pub TitlesApart : List HeaderRow → Type 0
TitlesApart [] = Unit
TitlesApart (h ∷ hs) = All (λ g. has_title g.key g.title h ≡ false) hs × TitlesApart hs

-- Every header has one time row and one item row, in the order of the headers.
pub record IsConsistent (db : MultiKeyDb) : Type 0 where
  pub fresh : All (λ h. h.id < db.next_id) db.headers
  pub apart : IdsApart db.headers
  pub titles : TitlesApart db.headers
  pub times : time_ids db.times ≡ header_ids db.headers
  pub items : item_ids db.items ≡ header_ids db.headers

pub empty_db-IsConsistent : IsConsistent empty_db
unfolding empty_db
empty_db-IsConsistent = record { fresh = tt; apart = tt; titles = tt; times = refl; items = refl }

module _ (p : HeaderRow → Bool) where
  pub id_in_absent : (i : ℕ) (hs : List HeaderRow) → All (λ g. g.id ≢ i) hs → id_in i p hs ≡ false
  unfolding id_in
  id_in_absent i [] h = refl
  id_in_absent i (g ∷ hs) h = ground (arith, h.0, id_in_absent i hs h.1)

  id_in-skip :
      (h : HeaderRow) (hs gs : List HeaderRow)
      → All (λ g. g.id ≢ h.id) gs
      → All (λ g. id_in g.id p hs ≡ p g) gs
      → All (λ g. id_in g.id p (h ∷ hs) ≡ p g) gs
  unfolding id_in
  id_in-skip h hs [] a b = tt
  id_in-skip h hs (g ∷ gs) a b = (ground (arith, a.0, b.0), id_in-skip h hs gs a.1 b.1)

  id_in_head :
      (h : HeaderRow) (hs : List HeaderRow)
      → All (λ g. g.id ≢ h.id) hs
      → id_in h.id p (h ∷ hs) ≡ p h
  unfolding id_in
  id_in_head h hs a = ground (arith, id_in_absent h.id hs a)

  -- With distinct ids, the id of a header is among those that pass exactly if the header does.
  pub id_in_self : (hs : List HeaderRow) → IdsApart hs → All (λ h. id_in h.id p hs ≡ p h) hs
  id_in_self [] a = tt
  id_in_self (h ∷ hs) a = (id_in_head h hs a.0, id_in-skip h hs hs a.0 (id_in_self hs a.1))

  -- The ids that stay after a deletion are those of the headers that stay.
  kept_ids :
      (hs : List HeaderRow)
      → IdsApart hs
      → filter_by (λ i. not (id_in i p hs)) (header_ids hs)
        ≡ header_ids (filter_by (λ h. not (p h)) hs)
  kept_ids hs a =
      filter_by-map (λ i. not (id_in i p hs)) (λ h. h.id) hs
      ∙ ap header_ids (
          filter_by_congr (λ h. not (id_in h.id p hs)) (λ h. not (p h)) hs
            (All-weaken {P = λ h. id_in h.id p hs ≡ p h} (λ h e. ap not e) hs (id_in_self hs a)))

  IdsApart-filter_by : (hs : List HeaderRow) → IdsApart hs → IdsApart (filter_by p hs)
  IdsApart-filter_by [] a = tt
  IdsApart-filter_by (h ∷ hs) a = elim (Bool-cases (p h)) [
    | inl hit ↦ rw hit (All-filter_by (λ g. g.id ≢ h.id) p hs a.0, IdsApart-filter_by hs a.1)
    | inr miss ↦ rw miss (IdsApart-filter_by hs a.1)
  ]

  TitlesApart-filter_by : (hs : List HeaderRow) → TitlesApart hs → TitlesApart (filter_by p hs)
  TitlesApart-filter_by [] a = tt
  TitlesApart-filter_by (h ∷ hs) a = elim (Bool-cases (p h)) [
    | inl hit ↦ rw hit (
      All-filter_by (λ g. has_title g.key g.title h ≡ false) p hs a.0,
      TitlesApart-filter_by hs a.1,
    )
    | inr miss ↦ rw miss (TitlesApart-filter_by hs a.1)
  ]

-- A deletion by any condition keeps the tables consistent: the cascade leaves no row behind.
pub delete_where-IsConsistent :
    (p : HeaderRow → Bool) (db : MultiKeyDb) → IsConsistent db → IsConsistent (delete_where p db)
unfolding delete_where
delete_where-IsConsistent p db c =
    let gone = λ (i : ℕ). not (id_in i p db.headers) in
    record {
      fresh = All-filter_by (λ h. h.id < db.next_id) (λ h. not (p h)) db.headers c.fresh;
      apart = IdsApart-filter_by (λ h. not (p h)) db.headers c.apart;
      titles = TitlesApart-filter_by (λ h. not (p h)) db.headers c.titles;
      times =
          sym (filter_by-map gone (λ t. t.time_id) db.times)
          ∙ ap (filter_by gone) c.times
          ∙ kept_ids p db.headers c.apart;
      items =
          sym (filter_by-map gone (λ i. i.item_id) db.items)
          ∙ ap (filter_by gone) c.items
          ∙ kept_ids p db.headers c.apart;
    }

pub has_title_self :
    (k title : Bytes) (i : ℕ) → has_title k title (record { id = i; key = k; title = title }) ≡ true
unfolding has_title
has_title_self k title i = ground (arith, str_eq_self k, str_eq_self title)

IdsApart-snoc :
    (hs : List HeaderRow) (g : HeaderRow)
    → IdsApart hs
    → All (λ h. h.id < g.id) hs
    → IdsApart (hs ++ g ∷ [])
IdsApart-snoc [] g a b = (tt, tt)
IdsApart-snoc (h ∷ hs) g a b = (
  All-append (λ f. f.id ≢ h.id) hs (g ∷ []) a.0 (omega (arith, b.0), tt),
  IdsApart-snoc hs g a.1 b.1,
)

TitlesApart-snoc :
    (hs : List HeaderRow) (g : HeaderRow)
    → TitlesApart hs
    → All (λ h. has_title g.key g.title h ≡ false) hs
    → TitlesApart (hs ++ g ∷ [])
TitlesApart-snoc [] g a b = (tt, tt)
TitlesApart-snoc (h ∷ hs) g a b = (
  All-append (λ f. has_title f.key f.title h ≡ false) hs (g ∷ []) a.0 (b.0, tt),
  TitlesApart-snoc hs g a.1 b.1,
)

module _ (k title : Bytes) (time ttl : ℕ) (blob : Bytes) (db : MultiKeyDb) where
  abbrev pub new_header : HeaderRow
  new_header = record { id = db.next_id; key = k; title = title }

  -- With a new pair of key and title, an insertion adds one row to each table.
  pub insert_new :
      count_by (has_title k title) db.headers ≡ 0
      → insert k title time ttl blob db ≡ record {
        next_id = suc db.next_id;
        headers = db.headers ++ new_header ∷ [];
        times = db.times ++ record { time_id = db.next_id; time = time; ttl = ttl } ∷ [];
        items = db.items ++ record { item_id = db.next_id; blob = blob } ∷ [];
      }
  unfolding insert
  insert_new h = rw (
    filter_by-append (has_title k title) db.headers (new_header ∷ []),
    filter_by_none (has_title k title) db.headers h,
    has_title_self k title db.next_id,
  )

  -- In a consistent store, the insertion of a new pair of key and title leaves the three tables
  -- consistent.
  pub insert-IsConsistent :
      count_by (has_title k title) db.headers ≡ 0
      → IsConsistent db
      → IsConsistent (insert k title time ttl blob db)
  insert-IsConsistent h c = rw (insert_new h) (record {
    fresh =
        All-append (λ g. g.id < suc db.next_id) db.headers (new_header ∷ [])
          (All-weaken {P = λ g. g.id < db.next_id} (λ g less. omega arith) db.headers c.fresh)
          (omega arith, tt);
    apart = IdsApart-snoc db.headers new_header c.apart c.fresh;
    titles =
        TitlesApart-snoc db.headers new_header c.titles
          (count_by_none (has_title k title) db.headers h);
    times = map-append _ _ _ ∙ ap (λ l. l ++ db.next_id ∷ []) c.times ∙ sym (map-append _ _ _);
    items = map-append _ _ _ ∙ ap (λ l. l ++ db.next_id ∷ []) c.items ∙ sym (map-append _ _ _);
  })

update_ids :
    (p : HeaderRow → Bool) (hs : List HeaderRow) (time ttl : ℕ) (ts : List TimeRow)
    → time_ids
        (map (λ t. if id_in t.time_id p hs then record t { time = time; ttl = ttl } else t) ts)
      ≡ time_ids ts
update_ids p hs time ttl [] = refl
update_ids p hs time ttl (t ∷ ts) = elim (Bool-cases (id_in t.time_id p hs)) [
  | inl hit ↦ rw hit (ap (◌∷◌ t.time_id) (update_ids p hs time ttl ts))
  | inr miss ↦ rw miss (ap (◌∷◌ t.time_id) (update_ids p hs time ttl ts))
]

-- An update changes times only.
pub update-IsConsistent :
    (k title : Bytes) (time ttl : ℕ) (db : MultiKeyDb)
    → IsConsistent db
    → IsConsistent (update k title time ttl db)
unfolding update
update-IsConsistent k title time ttl db c = record {
  fresh = c.fresh;
  apart = c.apart;
  titles = c.titles;
  times = update_ids (has_title k title) db.headers time ttl db.times ∙ c.times;
  items = c.items;
}
