-- ===== src/Db/Handle/KeyValue.antt =====
-- The methods of `db_key_value` (Sources/miniDHT_db.cpp) with the mutex and the errors.
use mini_dht.Base.{ℕ, List, [], ◌++◌, Bytes, Map}
use mini_dht.Db.KeyValue
use mini_dht.Db.KeyValue.{KeyValueDb, find_value, list_into, list_value}
use mini_dht.Db.Handle.{
  Engine, Handle, Outcome, ◌>>=◌, lock_it, exec, exec_checked, get_table, open_file,
}

module _ (engine : Engine) where
  -- The table stays if it is there.
  unfoldable pub create_table : Handle KeyValueDb → Outcome KeyValueDb (Unit {0})
  create_table h = lock_it h >>= λ _ h'. exec engine "SQL error in CREATE table : " (λ db. db) h'

  unfoldable pub open_db : KeyValueDb → Handle KeyValueDb → Outcome KeyValueDb (Unit {0})
  open_db file h = open_file engine file h >>= λ _ h'. create_table h'

  unfoldable pub clear : Handle KeyValueDb → Outcome KeyValueDb (Unit {0})
  clear h =
      lock_it h >>= (λ _ h1. exec engine "SQL error in DROP table : " KeyValue.clear h1) >>= λ _ h2.
      create_table h2

  unfoldable pub find : Bytes → Handle KeyValueDb → Outcome KeyValueDb Bytes
  find k h =
      lock_it h >>= λ _ h'. get_table engine "SQL error in SELECT value : " [] (find_value k) h'

  unfoldable pub remove : Bytes → Handle KeyValueDb → Outcome KeyValueDb (Unit {0})
  remove k h = lock_it h >>= λ _ h'. exec engine "SQL error in DELETE : " (KeyValue.remove k) h'

  unfoldable pub insert : Bytes → Bytes → Handle KeyValueDb → Outcome KeyValueDb (Unit {0})
  insert k v h = lock_it h >>= λ _ h'.
      exec_checked engine "SQL error in INSERT table : " (KeyValue.insert k v) h'

  unfoldable pub size : Handle KeyValueDb → Outcome KeyValueDb ℕ
  size h =
      lock_it h >>= λ _ h'. get_table engine "SQL error in SELECT Count(*) : " [] KeyValue.size h'

  unfoldable pub list : Map Bytes Bytes → Handle KeyValueDb → Outcome KeyValueDb (Map Bytes Bytes)
  list mm h = lock_it h >>= λ _ h'.
      get_table engine "SQL error in SELECT * : " [] (λ db. list_into db mm) h'

  unfoldable pub list_values : List Bytes → Handle KeyValueDb → Outcome KeyValueDb (List Bytes)
  list_values l h = lock_it h >>= λ _ h'.
      get_table engine "SQL error in SELECT value : " [] (λ db. l ++ list_value db) h'
