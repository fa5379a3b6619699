-- ===== src/Db/KeyValue.antt =====
-- `db_key_value`: the table `contacts(key TEXT PRIMARY KEY, value TEXT)`, which keeps the end
-- point of each contact.
use mathlib.Core.List.{append-nil}
use mini_dht.Base.{
  ℕ, ◌≡◌, refl, ◌≢◌, Bool, false, not, List, [], ◌∷◌, ◌++◌, map, Option, none, some, arith, Bytes,
  str_eq, str_eq_iff, str_eq_self, str_lt, ◌==◌, if◌then◌else◌, length, filter_by, filter_by-append,
  count_by, Map,
}

pub record ContactRow : Type 0 where
  pub key : Bytes
  pub value : Bytes

abbrev pub KeyValueDb : Type 0
KeyValueDb = List ContactRow

abbrev pub has_key : Bytes → ContactRow → Bool
has_key k r = str_eq r.key k

-- `clear`: the table is dropped and created again.
unfoldable pub clear : KeyValueDb → KeyValueDb
clear db = []

unfoldable pub only_value : List ContactRow → Bytes
only_value [] = []
only_value (r ∷ []) = r.value
only_value (r ∷ s ∷ rs) = []

-- `find`: the value if there is exactly one row, and the empty text otherwise.
unfoldable pub find_value : Bytes → KeyValueDb → Bytes
unfolding only_value
find_value k db = only_value (filter_by (has_key k) db)

unfoldable pub remove : Bytes → KeyValueDb → KeyValueDb
remove k db = filter_by (λ r. not (has_key k r)) db

-- `none` stands for the exception of a broken PRIMARY KEY.
unfoldable pub insert : Bytes → Bytes → KeyValueDb → Option KeyValueDb
insert k v db =
    if count_by (has_key k) db == 0 then some (db ++ record { key = k; value = v } ∷ []) else none

unfoldable pub size : KeyValueDb → ℕ
size db = length db

-- `std::map::insert`, which keeps an entry that is there.
unfoldable pub insert_absent : Bytes → Bytes → Map Bytes Bytes → Map Bytes Bytes
insert_absent k v [] = (k, v) ∷ []
insert_absent k v ((j, w) ∷ m) =
    if str_lt j k
    then (j, w) ∷ insert_absent k v m
    else if str_lt k j
    then (k, v) ∷ (j, w) ∷ m
    else (j, w) ∷ m

-- `list`
unfoldable pub list_into : KeyValueDb → Map Bytes Bytes → Map Bytes Bytes
unfolding insert_absent
list_into [] mm = mm
list_into (r ∷ db) mm = list_into db (insert_absent r.key r.value mm)

-- `list_value`
unfoldable pub list_value : KeyValueDb → List Bytes
list_value db = map (λ r. r.value) db

-- What `periodic` does for a contact: the row is replaced unless it holds the value already.
unfoldable pub replace : Bytes → Bytes → KeyValueDb → Option KeyValueDb
unfolding find_value remove insert
replace k v db =
    if str_eq (find_value k db) v
    then some db
    else insert k v (if not (str_eq (find_value k db) []) then remove k db else db)

filter-remove :
    (j k : Bytes) (db : KeyValueDb)
    → j ≢ k
    → filter_by (has_key j) (remove k db) ≡ filter_by (has_key j) db
unfolding remove
filter-remove j k [] other = refl
filter-remove j k (r ∷ db) other =
    ground (arith, str_eq_iff r.key j, str_eq_iff r.key k, filter-remove j k db other)

filter-remove_self : (k : Bytes) (db : KeyValueDb) → filter_by (has_key k) (remove k db) ≡ []
unfolding remove
filter-remove_self k [] = refl
filter-remove_self k (r ∷ db) = ground (arith, filter-remove_self k db)

count-remove_self : (k : Bytes) (db : KeyValueDb) → count_by (has_key k) (remove k db) ≡ 0
unfolding remove
count-remove_self k [] = refl
count-remove_self k (r ∷ db) = ground (arith, count-remove_self k db)

-- After a key is removed, a value inserted under it is found, and every other key is found as
-- before; the insertion never breaks the PRIMARY KEY.
pub find_value-insert-remove :
    (k v : Bytes) (db : KeyValueDb)
    → (db' : KeyValueDb) × (insert k v (remove k db) ≡ some db')
      × (find_value k db' ≡ v)
      × ((j : Bytes) → j ≢ k → find_value j db' ≡ find_value j db)
unfolding insert find_value
find_value-insert-remove k v db = (
  remove k db ++ new ∷ [],
  rw (count-remove_self k db),
  rw (
    filter_by-append (has_key k) (remove k db) (new ∷ []),
    filter-remove_self k db,
    str_eq_self k,
  ),
  λ j other.
      rw (filter_by-append (has_key j) (remove k db) (new ∷ []), filter-remove j k db other)
        (kept j other),
)
  where
    new : ContactRow
    new = record { key = k; value = v }

    kept :
        (j : Bytes)
        → j ≢ k
        → only_value (filter_by (has_key j) db ++ filter_by (has_key j) (new ∷ []))
          ≡ only_value (filter_by (has_key j) db)
    kept j other =
        let apart : str_eq k j ≡ false = ground (arith, str_eq_iff k j) in
        rw (apart, append-nil (filter_by (has_key j) db))
