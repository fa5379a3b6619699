-- ===== src/Db/MultiKey.antt =====
-- `db_multi_key_data`: the tables `data_header`, `data_time` and `data_item` of the stored data.
-- Foreign keys are on, so the rows of a deleted header are deleted with it.
use mini_dht.Base.{
  ℕ, suc, Bool, false, not, ◌&&◌, ◌||◌, List, [], ◌∷◌, ◌++◌, map, Option, none, some, Bytes, str_eq,
  ◌==◌, if◌then◌else◌, length, filter_by, count_by,
}
use mini_dht.Contact.{DataItemProto}

pub record HeaderRow : Type 0 where
  pub id : ℕ
  pub key : Bytes
  pub title : Bytes

-- The columns are `long long`, which keep the 64 bits of a time or a ttl: from 2^63 on the number
-- stands for a negative one.
pub record TimeRow : Type 0 where
  pub time_id : ℕ
  pub time : ℕ
  pub ttl : ℕ

pub record ItemRow : Type 0 where
  pub item_id : ℕ
  pub blob : Bytes

-- `next_id` is what AUTOINCREMENT gives out next.
pub record MultiKeyDb : Type 0 where
  pub next_id : ℕ
  pub headers : List HeaderRow
  pub times : List TimeRow
  pub items : List ItemRow

-- `data_item_header_t`
pub record DataItemHeader : Type 0 where
  pub key : Bytes
  pub title : Bytes
  pub time : ℕ
  pub ttl : ℕ

unfoldable pub has_key : Bytes → HeaderRow → Bool
has_key k h = str_eq h.key k

unfoldable pub has_title : Bytes → Bytes → HeaderRow → Bool
has_title k title h = str_eq h.key k && str_eq h.title title

-- `id IN (SELECT id FROM data_header WHERE ...)`
unfoldable pub id_in : ℕ → (HeaderRow → Bool) → List HeaderRow → Bool
id_in i p [] = false
id_in i p (h ∷ hs) = (p h && h.id == i) || id_in i p hs

-- `DELETE FROM data_header WHERE ...`, with the rows that refer to what it deletes.
unfoldable pub delete_where : (HeaderRow → Bool) → MultiKeyDb → MultiKeyDb
delete_where p db = record db {
  headers = filter_by (λ h. not (p h)) db.headers;
  times = filter_by (λ t. not (id_in t.time_id p db.headers)) db.times;
  items = filter_by (λ i. not (id_in i.item_id p db.headers)) db.items;
}

unfoldable pub empty_db : MultiKeyDb
empty_db = record { next_id = 1; headers = []; times = []; items = [] }

-- `clear`: the tables are dropped and created again; the ids given out are forgotten with them.
unfoldable pub clear : MultiKeyDb → MultiKeyDb
unfolding empty_db
clear db = empty_db

unfoldable pub remove : Bytes → Bytes → MultiKeyDb → MultiKeyDb
remove k title db = delete_where (has_title k title) db

-- A product of two tables.
unfoldable pub cross {ℓ κ} : {A : Type ℓ} {B : Type κ} → List A → List B → List (A × B)
cross [] ys = []
cross (x ∷ xs) ys = map (λ y. (x, y)) ys ++ cross xs ys

-- `SELECT data_header.id FROM data_header, data_time ORDER BY data_time.time ASC LIMIT 1`:
-- `first_row` is the row that the engine puts first.
unfoldable pub remove_oldest :
    (List (HeaderRow × TimeRow) → Option (HeaderRow × TimeRow)) → MultiKeyDb → MultiKeyDb
remove_oldest first_row db = elim (first_row (cross db.headers db.times)) [
  | none ↦ db
  | some (h, t) ↦ delete_where (λ g. g.id == h.id) db
]

-- `INSERT INTO data_header`, then one row of `data_time` and of `data_item` for every header with
-- this key and title.
unfoldable pub insert : Bytes → Bytes → ℕ → ℕ → Bytes → MultiKeyDb → MultiKeyDb
insert k title time ttl blob db =
    let headers = db.headers ++ record { id = db.next_id; key = k; title = title } ∷ [] in
    let matching = filter_by (has_title k title) headers in
    record {
      next_id = suc db.next_id;
      headers = headers;
      times = db.times ++ map (λ h. record { time_id = h.id; time = time; ttl = ttl }) matching;
      items = db.items ++ map (λ h. record { item_id = h.id; blob = blob }) matching;
    }

unfoldable pub update : Bytes → Bytes → ℕ → ℕ → MultiKeyDb → MultiKeyDb
update k title time ttl db = record db {
  times =
      map
        (λ t.
          if id_in t.time_id (has_title k title) db.headers
          then record t { time = time; ttl = ttl }
          else t)
        db.times;
}

unfoldable pub count : Bytes → MultiKeyDb → ℕ
count k db = count_by (has_key k) db.headers

unfoldable pub size : MultiKeyDb → ℕ
size db = length db.headers

-- The rows of `data_header, data_time, data_item` whose ids belong to headers that pass the test,
-- each by itself: the statements of the two `find`s do not ask that the three ids agree.
unfoldable pub rows_of : (HeaderRow → Bool) → MultiKeyDb → List (HeaderRow × (TimeRow × ItemRow))
unfolding cross
rows_of p db = cross (filter_by p db.headers) (
    cross (filter_by (λ t. id_in t.time_id p db.headers) db.times)
      (filter_by (λ i. id_in i.item_id p db.headers) db.items))

abbrev pub row_item : HeaderRow × (TimeRow × ItemRow) → DataItemProto
row_item (h, (t, i)) = record { ttl = t.ttl; time = t.time; title = h.title; blob = i.blob }

-- `find` by key.
unfoldable pub find : Bytes → MultiKeyDb → List DataItemProto
unfolding rows_of
find k db = map row_item (rows_of (has_key k) db)

unfoldable pub first_item : List DataItemProto → Option DataItemProto
first_item [] = none
first_item (d ∷ ds) = some d

-- `find` by key and title; `none` stands for the exception if there is no row.
unfoldable pub find_titled : Bytes → Bytes → MultiKeyDb → Option DataItemProto
unfolding rows_of first_item
find_titled k title db = first_item (map row_item (rows_of (has_title k title) db))

-- `find_no_blob`: `data_item` stands in the `FROM` clause with no condition.
unfoldable pub find_no_blob : Bytes → MultiKeyDb → List DataItemProto
unfolding cross
find_no_blob k db =
    map (λ r. record { ttl = r.1.0.ttl; time = r.1.0.time; title = r.0.title; blob = [] })
      (cross (filter_by (has_key k) db.headers)
        (cross (filter_by (λ t. id_in t.time_id (has_key k) db.headers) db.times) db.items))

-- The rows of the three tables with one id.
unfoldable pub joined : MultiKeyDb → List (HeaderRow × (TimeRow × ItemRow))
unfolding cross
joined db =
    filter_by (λ r. r.0.id == r.1.0.time_id && r.0.id == r.1.1.item_id)
      (cross db.headers (cross db.times db.items))

-- `list`: the statement selects no column `key`, so every key is the empty text.
unfoldable pub list : MultiKeyDb → List (Bytes × DataItemProto)
unfolding joined
list db = map (λ r. ([], row_item r)) (joined db)

unfoldable pub list_headers : MultiKeyDb → List DataItemHeader
unfolding joined
list_headers db =
    map (λ r. record { key = r.0.key; title = r.0.title; time = r.1.0.time; ttl = r.1.0.ttl })
      (joined db)
