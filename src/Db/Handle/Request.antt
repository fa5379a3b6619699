-- ===== src/Db/Handle/Request.antt =====
-- The methods of the two stores (Sources/miniDHT_db.cpp) as data, so that a theorem can speak of any
-- of them and of runs of them.
use mini_dht.Base.{ℕ, List, [], ◌∷◌, Bytes, Map}
use mini_dht.Contact.{DataItemProto}
use mini_dht.Db.KeyValue.{KeyValueDb}
use mini_dht.Db.MultiKey.{HeaderRow, TimeRow, MultiKeyDb, DataItemHeader}
use mini_dht.Base.{Option}
use mini_dht.Db.Handle.{Engine, Handle, Outcome, returned, ◌>>=◌}
use mini_dht.Db.Handle.KeyValue
use mini_dht.Db.Handle.MultiKey

-- What a method gives back.
pub data Answer : Type 0 where
  done : Answer
  number : ℕ → Answer
  text : Bytes → Answer
  texts : List Bytes → Answer
  pairs : Map Bytes Bytes → Answer
  item : DataItemProto → Answer
  items : List DataItemProto → Answer
  keyed : List (Bytes × DataItemProto) → Answer
  headers : List DataItemHeader → Answer

unfoldable pub answer : {D A : Type 0} → (A → Answer) → Outcome D A → Outcome D Answer
answer f r = r >>= λ a h. returned (f a) h

pub data BackupRequest : Type 0 where
  clear_backup : BackupRequest
  find_value : Bytes → BackupRequest
  remove_value : Bytes → BackupRequest
  insert_value : Bytes → Bytes → BackupRequest
  backup_size : BackupRequest
  list_pairs : Map Bytes Bytes → BackupRequest
  list_values : List Bytes → BackupRequest

pub data Request : Type 0 where
  clear : Request
  remove : (k title : Bytes) → Request
  remove_oldest : Request
  update : (k title : Bytes) (time ttl : ℕ) → Request
  insert : (k title : Bytes) (time ttl : ℕ) (blob : Bytes) → Request
  count : Bytes → Request
  size : Request
  find_item : (k title : Bytes) → Request
  find : Bytes → Request
  find_no_blob : Bytes → Request
  list : Request
  list_headers : Request

module _ (engine : Engine) where
  unfoldable pub perform_backup : BackupRequest → Handle KeyValueDb → Outcome KeyValueDb Answer
  perform_backup clear_backup h = answer (λ _. done) (KeyValue.clear engine h)
  perform_backup (find_value k) h = answer text (KeyValue.find engine k h)
  perform_backup (remove_value k) h = answer (λ _. done) (KeyValue.remove engine k h)
  perform_backup (insert_value k v) h = answer (λ _. done) (KeyValue.insert engine k v h)
  perform_backup backup_size h = answer number (KeyValue.size engine h)
  perform_backup (list_pairs mm) h = answer pairs (KeyValue.list engine mm h)
  perform_backup (list_values l) h = answer texts (KeyValue.list_values engine l h)

  module _ (first_row : List (HeaderRow × TimeRow) → Option (HeaderRow × TimeRow)) where
    unfoldable pub perform : Request → Handle MultiKeyDb → Outcome MultiKeyDb Answer
    perform clear h = answer (λ _. done) (MultiKey.clear engine h)
    perform (remove k title) h = answer (λ _. done) (MultiKey.remove engine k title h)
    perform remove_oldest h = answer (λ _. done) (MultiKey.remove_oldest engine first_row h)
    perform (update k title time ttl) h =
        answer (λ _. done) (MultiKey.update engine k title time ttl h)
    perform (insert k title time ttl blob) h =
        answer (λ _. done) (MultiKey.insert engine k title time ttl blob h)
    perform (count k) h = answer number (MultiKey.count engine k h)
    perform size h = answer number (MultiKey.size engine h)
    perform (find_item k title) h = answer item (MultiKey.find_item engine k title h)
    perform (find k) h = answer items (MultiKey.find engine k h)
    perform (find_no_blob k) h = answer items (MultiKey.find_no_blob engine k h)
    perform list h = answer keyed (MultiKey.list engine h)
    perform list_headers h = answer headers (MultiKey.list_headers engine h)

    -- One call after the other.
    unfoldable pub perform_all : List Request → Handle MultiKeyDb → Outcome MultiKeyDb (List Answer)
    perform_all [] h = returned [] h
    perform_all (r ∷ rs) h =
        perform r h >>= λ a h1. perform_all rs h1 >>= λ answers h2. returned (a ∷ answers) h2
