-- ===== src/Db/Handle/Fate/KeyValue.antt =====
-- The mutex of `db_key_value` (Sources/miniDHT_db.cpp).
use mini_dht.Db.KeyValue.{KeyValueDb}
use mini_dht.Db.Handle.{Engine, Handle}
use mini_dht.Db.Handle.KeyValue
use mini_dht.Db.Handle.KeyValue.{create_table}
use mini_dht.Db.Handle.Fate.{
  Fate, IsPaired, then-Fate, locked-Fate, paired, exec-Fate, exec_checked-Fate, get_table-Fate,
}
use mini_dht.Db.Handle.Fate.MultiKey.{answer-Fate}
use mini_dht.Db.Handle.Request.{
  BackupRequest, clear_backup, find_value, remove_value, insert_value, backup_size, list_pairs,
  list_values, perform_backup,
}

module _ (engine : Engine) where
  create_table-Fate : (h : Handle KeyValueDb) → IsPaired h → Fate h (create_table engine h)
  unfolding create_table
  create_table-Fate h p = locked-Fate h _ p (λ h' held. exec-Fate engine _ _ h' held)

  clear-Fate : (h : Handle KeyValueDb) → IsPaired h → Fate h (KeyValue.clear engine h)
  unfolding KeyValue.clear
  clear-Fate h p =
      then-Fate h _ _ (locked-Fate h _ p (λ h1 held. exec-Fate engine _ _ h1 held))
        (λ _ h2 held. create_table-Fate h2 (paired h2 held))

  -- The same of the table of known end points: whatever SQLite answers, and as long as no mutex is
  -- held that is not needed, a call of any method returns with the mutex locked, throws with it
  -- unlocked or waits for ever where the mutex is needed, and returns or unlocks a mutex that is not
  -- locked where it is not.
  pub perform_backup-Fate :
      (r : BackupRequest) (h : Handle KeyValueDb) → IsPaired h → Fate h (perform_backup engine r h)
  unfolding perform_backup KeyValue.find KeyValue.remove KeyValue.insert KeyValue.size KeyValue.list
      KeyValue.list_values
  perform_backup-Fate clear_backup h p = answer-Fate _ h _ (clear-Fate h p)
  perform_backup-Fate (find_value k) h p =
      answer-Fate _ h _ (locked-Fate h _ p (λ h' held. get_table-Fate engine _ _ _ h' held))
  perform_backup-Fate (remove_value k) h p =
      answer-Fate _ h _ (locked-Fate h _ p (λ h' held. exec-Fate engine _ _ h' held))
  perform_backup-Fate (insert_value k v) h p =
      answer-Fate _ h _ (locked-Fate h _ p (λ h' held. exec_checked-Fate engine _ _ h' held))
  perform_backup-Fate backup_size h p =
      answer-Fate _ h _ (locked-Fate h _ p (λ h' held. get_table-Fate engine _ _ _ h' held))
  perform_backup-Fate (list_pairs mm) h p =
      answer-Fate _ h _ (locked-Fate h _ p (λ h' held. get_table-Fate engine _ _ _ h' held))
  perform_backup-Fate (list_values l) h p =
      answer-Fate _ h _ (locked-Fate h _ p (λ h' held. get_table-Fate engine _ _ _ h' held))
