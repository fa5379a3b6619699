-- ===== src/Node/Store.antt =====
-- Sources/miniDHT.cpp: `insert_db`, with the eviction of old records.
use mini_dht.Base.{ℕ, zero, suc, ◌+◌, List, [], ◌∷◌, Bytes, str_eq, ltb, leb, ◌==◌, if◌then◌else◌}
use mini_dht.Contact.{DataItemProto}
use mini_dht.Db.MultiKey.{MultiKeyDb, insert, update, remove_oldest, count, size, find_no_blob}
use mini_dht.Node.State.{Env, Node, Result, ok, fault, out_of_fuel, ◌>>=◌}

-- The loop over the items found, up to the first with the title. The two ages are differences to
-- `now`, which may be negative; they are compared with both times added on both sides.
unfoldable pub refresh_item :
    ℕ → Bytes → DataItemProto → List DataItemProto → MultiKeyDb → MultiKeyDb
refresh_item now k d [] db = insert k d.title d.time d.ttl d.blob db
refresh_item now k d (x ∷ xs) db =
    if str_eq x.title d.title
    then (if ltb (now + x.time) (now + d.time) then update k d.title d.time d.ttl db else db)
    else refresh_item now k d xs db

module _ (env : Env) where
  -- `while (db_storage.size() >= max_records_) db_storage.remove_oldest();`
  unfoldable pub drop_oldest : ℕ → ℕ → MultiKeyDb → Result MultiKeyDb
  drop_oldest zero max_records db = if leb max_records (size db) then fault out_of_fuel else ok db
  drop_oldest (suc fuel) max_records db =
      let rest = drop_oldest fuel max_records (remove_oldest env.first_row db) in
      if leb max_records (size db) then rest else ok db

  -- One round for each record in the table is enough, if any record may stay.
  unfoldable pub insert_db : ℕ → Bytes → DataItemProto → Node → Result Node
  unfolding drop_oldest refresh_item
  insert_db now k d n =
      if count k n.db_storage == 0
      then (drop_oldest (size n.db_storage) n.max_records n.db_storage >>= λ db.
          ok (record n { db_storage = insert k d.title d.time d.ttl d.blob db }))
      else ok (record n {
        db_storage = refresh_item now k d (find_no_blob k n.db_storage) n.db_storage;
      })
