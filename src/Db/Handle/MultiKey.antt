-- ===== src/Db/Handle/MultiKey.antt =====
-- The methods of `db_multi_key_data` (Sources/miniDHT_db.cpp) with the mutex and the errors.
use mini_dht.Base.{ℕ, suc, true, List, [], ◌∷◌, ◌++◌, map, Option, none, some, Bytes, filter_by}
use mini_dht.Contact.{DataItemProto}
use mini_dht.Db.MultiKey
use mini_dht.Db.MultiKey.{
  HeaderRow, TimeRow, MultiKeyDb, DataItemHeader, has_title, delete_where, find_titled,
}
use mini_dht.Db.Handle.{
  Engine, Handle, Outcome, returned, ◌>>=◌, lock_it, unlock_and_throw, asked_once, exec, get_table,
  prepare, finalize, select, open_file,
}

-- `DROP TABLE data_header`: the rows go first, with those that refer to them.
unfoldable pub drop_headers : MultiKeyDb → MultiKeyDb
unfolding delete_where
drop_headers db = record (delete_where (λ h. true) db) { next_id = 1 }

-- The three statements of `insert`.
unfoldable pub insert_header : Bytes → Bytes → MultiKeyDb → MultiKeyDb
insert_header k title db = record db {
  next_id = suc db.next_id;
  headers = db.headers ++ record { id = db.next_id; key = k; title = title } ∷ [];
}

unfoldable pub insert_time : Bytes → Bytes → ℕ → ℕ → MultiKeyDb → MultiKeyDb
insert_time k title time ttl db = record db {
  times =
      db.times
      ++ map (λ h. record { time_id = h.id; time = time; ttl = ttl })
          (filter_by (has_title k title) db.headers);
}

unfoldable pub insert_item : Bytes → Bytes → Bytes → MultiKeyDb → MultiKeyDb
insert_item k title blob db = record db {
  items =
      db.items
      ++ map (λ h. record { item_id = h.id; blob = blob })
          (filter_by (has_title k title) db.headers);
}

module _ (engine : Engine) where
  -- `sqlite3_bind_blob`
  unfoldable pub bind_blob : Handle MultiKeyDb → Outcome MultiKeyDb (Unit {0})
  unfolding unlock_and_throw
  bind_blob h = elim (engine.failure h.asked) [
    | none ↦ returned tt (asked_once h)
    | some (code, why) ↦ unlock_and_throw "SQL error binding data in INSERT!" [] (asked_once h)
  ]

  -- The table stays if it is there.
  unfoldable pub create_table : Handle MultiKeyDb → Outcome MultiKeyDb (Unit {0})
  create_table h = lock_it h >>= λ _ h'. exec engine "SQL error in CREATE TABLE : " (λ db. db) h'

  unfoldable pub open_db : MultiKeyDb → Handle MultiKeyDb → Outcome MultiKeyDb (Unit {0})
  open_db file h = open_file engine file h >>= λ _ h'. create_table h'

  -- Each statement locks by itself.
  unfoldable pub clear : Handle MultiKeyDb → Outcome MultiKeyDb (Unit {0})
  clear h =
      lock_it h
      >>= (λ _ h1. exec engine "SQL error in DROP table : " drop_headers h1)
      >>= (λ _ h2. lock_it h2)
      >>= (λ _ h3. exec engine "SQL error in DROP table : " (λ db. record db { times = [] }) h3)
      >>= (λ _ h4. lock_it h4)
      >>= (λ _ h5. exec engine "SQL error in DROP table : " (λ db. record db { items = [] }) h5)
      >>= λ _ h6. create_table h6

  unfoldable pub remove : Bytes → Bytes → Handle MultiKeyDb → Outcome MultiKeyDb (Unit {0})
  remove k title h =
      lock_it h >>= λ _ h'. exec engine "SQL error in DELETE : " (MultiKey.remove k title) h'

  unfoldable pub remove_oldest :
      (List (HeaderRow × TimeRow) → Option (HeaderRow × TimeRow))
      → Handle MultiKeyDb
      → Outcome MultiKeyDb (Unit {0})
  remove_oldest first_row h = lock_it h >>= λ _ h'.
      exec engine "SQL error in DELETE oldest : " (MultiKey.remove_oldest first_row) h'

  unfoldable pub update : Bytes → Bytes → ℕ → ℕ → Handle MultiKeyDb → Outcome MultiKeyDb (Unit {0})
  update k title time ttl h = lock_it h >>= λ _ h'.
      exec engine "SQL error in UPDATE table : " (MultiKey.update k title time ttl) h'

  unfoldable pub insert :
      Bytes → Bytes → ℕ → ℕ → Bytes → Handle MultiKeyDb → Outcome MultiKeyDb (Unit {0})
  insert k title time ttl blob h =
      lock_it h
      >>= (λ _ h1. exec engine "SQL error in INSERT data_header : " (insert_header k title) h1)
      >>= (λ _ h2. exec engine "SQL error in INSERT data_time : " (insert_time k title time ttl) h2)
      >>= (λ _ h3. prepare engine "SQL error in prepare INSERT data_item : " h3)
      >>= (λ _ h4. bind_blob h4)
      >>= (λ _ h5. exec engine "SQL error step in INSERT : " (insert_item k title blob) h5)
      >>= λ _ h6. finalize engine "SQL error finalize in INSERT!" h6

  unfoldable pub count : Bytes → Handle MultiKeyDb → Outcome MultiKeyDb ℕ
  count k h = lock_it h >>= λ _ h'.
      get_table engine "SQL error in SELECT Count(*) WHERE key = '"
        (k ++ b'\'' ∷ b' ' ∷ b':' ∷ b' ' ∷ []) (MultiKey.count k) h'

  unfoldable pub size : Handle MultiKeyDb → Outcome MultiKeyDb ℕ
  size h =
      lock_it h >>= λ _ h'. get_table engine "SQL error in SELECT Count(*) : " [] MultiKey.size h'

  -- `find` by key and title: if the first step gives no row, the statement is not finalized.
  unfoldable pub first_row_of :
      Option DataItemProto → Handle MultiKeyDb → Outcome MultiKeyDb DataItemProto
  unfolding unlock_and_throw finalize
  first_row_of row h = elim (engine.failure h.asked) [
    | some (code, why) ↦ unlock_and_throw "SQL error in step : " why (asked_once h)
    | none ↦ elim row [
      | none ↦ unlock_and_throw "SQL error in step : " engine.no_row_message (asked_once h)
      | some item ↦
          finalize engine "SQL error finalize in SELECT [key value] !" (asked_once h) >>= λ _ h'.
          returned item h'
    ]
  ]

  unfoldable pub find_item : Bytes → Bytes → Handle MultiKeyDb → Outcome MultiKeyDb DataItemProto
  find_item k title h =
      lock_it h >>= (λ _ h1. prepare engine "SQL error in SELECT [key title] : " h1) >>= λ _ h2.
      first_row_of (find_titled k title h2.tables) h2

  unfoldable pub find : Bytes → Handle MultiKeyDb → Outcome MultiKeyDb (List DataItemProto)
  find k h = lock_it h >>= λ _ h'.
      select engine "SQL error in SELECT [...] : " "SQL error finalize in SELECT * !"
        (MultiKey.find k) h'

  unfoldable pub find_no_blob : Bytes → Handle MultiKeyDb → Outcome MultiKeyDb (List DataItemProto)
  find_no_blob k h = lock_it h >>= λ _ h'.
      select engine "SQL error in SELECT [...] : " "SQL error finalize in SELECT * !"
        (MultiKey.find_no_blob k) h'

  unfoldable pub list : Handle MultiKeyDb → Outcome MultiKeyDb (List (Bytes × DataItemProto))
  list h = lock_it h >>= λ _ h'.
      select engine "SQL error in SELECT * : " "SQL error finalize in SELECT * !" MultiKey.list h'

  unfoldable pub list_headers : Handle MultiKeyDb → Outcome MultiKeyDb (List DataItemHeader)
  list_headers h = lock_it h >>= λ _ h'.
      select engine "SQL error in SELECT key, time, ttl, title : "
        "SQL error finalize in SELECT key, time, ttl, title !" MultiKey.list_headers h'
