-- ===== src/Db/Handle/Fate/MultiKey.antt =====
-- The mutex of `db_multi_key_data` (Sources/miniDHT_db.cpp).
use mini_dht.Base.{ℕ, ◌≡◌, refl, List, [], Option, none, some, Bytes}
use mini_dht.Contact.{DataItemProto}
use mini_dht.Db.MultiKey.{HeaderRow, TimeRow, MultiKeyDb, find_titled}
use mini_dht.Db.Handle.{
  Engine, Handle, Outcome, returned, ◌>>=◌, unlock_and_throw, asked_once, finalize,
}
use mini_dht.Db.Handle.MultiKey.{bind_blob, create_table, first_row_of}
use mini_dht.Db.Handle.MultiKey
use mini_dht.Db.Handle.Fate.{
  Fate, IsPaired, then-Fate, lock_it-Fate, locked-Fate, paired, answered, unlock_and_throw-Fate,
  exec-Fate, get_table-Fate, prepare-Fate, finalize-Fate, select-Fate,
}
use mini_dht.Db.Handle.Request.{
  Answer, answer, Request, clear, remove, remove_oldest, update, insert, count, size, find_item,
  find, find_no_blob, list, list_headers, perform,
}

pub answer-Fate :
    {D A : Type 0} (f : A → Answer) (h : Handle D) (r : Outcome D A)
    → Fate h r
    → Fate h (answer f r)
unfolding answer Fate
answer-Fate f h r s = then-Fate h r (λ a h'. returned (f a) h') s (λ a h' held. (refl, held))

module _ (engine : Engine) where
  create_table-Fate : (h : Handle MultiKeyDb) → IsPaired h → Fate h (create_table engine h)
  unfolding create_table
  create_table-Fate h p =
      locked-Fate h _ p
        (λ h' held. exec-Fate engine "SQL error in CREATE TABLE : " (λ db. db) h' held)

  bind_blob-Fate : (h : Handle MultiKeyDb) → h.locked ≡ h.need_mutex → Fate h (bind_blob engine h)
  unfolding bind_blob Fate
  bind_blob-Fate h held =
      answered h (engine.failure h.asked) (returned tt (asked_once h))
        (λ why. unlock_and_throw "SQL error binding data in INSERT!" [] (asked_once h)) (refl, held)
        (λ why.
          unlock_and_throw-Fate (Unit {0}) "SQL error binding data in INSERT!" [] (asked_once h)
            held)

  found :
      (row : Option DataItemProto) (h : Handle MultiKeyDb)
      → h.locked ≡ h.need_mutex
      → Fate {A = DataItemProto} h (elim row [
        | none ↦ unlock_and_throw "SQL error in step : " engine.no_row_message (asked_once h)
        | some item ↦
            finalize engine "SQL error finalize in SELECT [key value] !" (asked_once h) >>= λ _ h'.
            returned item h'
      ])
  unfolding Fate
  found none h held =
      unlock_and_throw-Fate DataItemProto "SQL error in step : " engine.no_row_message
        (asked_once h) held
  found (some item) h held =
      then-Fate h (finalize engine "SQL error finalize in SELECT [key value] !" (asked_once h))
        (λ _ h'. returned item h')
        (finalize-Fate engine "SQL error finalize in SELECT [key value] !" (asked_once h) held)
        (λ _ h' held'. (refl, held'))

  first_row_of-Fate :
      (row : Option DataItemProto) (h : Handle MultiKeyDb)
      → h.locked ≡ h.need_mutex
      → Fate h (first_row_of engine row h)
  unfolding first_row_of Fate
  first_row_of-Fate row h held =
      answered h (engine.failure h.asked) _
        (λ why. unlock_and_throw "SQL error in step : " why (asked_once h)) (found row h held)
        (λ why. unlock_and_throw-Fate DataItemProto "SQL error in step : " why (asked_once h) held)

  clear-Fate : (h : Handle MultiKeyDb) → IsPaired h → Fate h (MultiKey.clear engine h)
  unfolding MultiKey.clear
  clear-Fate h p =
      then-Fate h _ _
        (then-Fate h _ _
          (then-Fate h _ _
            (then-Fate h _ _
              (then-Fate h _ _ (locked-Fate h _ p (λ h1 held. exec-Fate engine _ _ h1 held))
                (λ _ h2 held. lock_it-Fate h2 (paired h2 held)))
              (λ _ h3 held. exec-Fate engine _ _ h3 held))
            (λ _ h4 held. lock_it-Fate h4 (paired h4 held)))
          (λ _ h5 held. exec-Fate engine _ _ h5 held))
        (λ _ h6 held. create_table-Fate h6 (paired h6 held))

  insert-Fate :
      (k title : Bytes) (time ttl : ℕ) (blob : Bytes) (h : Handle MultiKeyDb)
      → IsPaired h
      → Fate h (MultiKey.insert engine k title time ttl blob h)
  unfolding MultiKey.insert
  insert-Fate k title time ttl blob h p =
      then-Fate h _ _
        (then-Fate h _ _
          (then-Fate h _ _
            (then-Fate h _ _
              (then-Fate h _ _ (locked-Fate h _ p (λ h1 held. exec-Fate engine _ _ h1 held))
                (λ _ h2 held. exec-Fate engine _ _ h2 held))
              (λ _ h3 held. prepare-Fate engine _ h3 held))
            (λ _ h4 held. bind_blob-Fate h4 held))
          (λ _ h5 held. exec-Fate engine _ _ h5 held))
        (λ _ h6 held. finalize-Fate engine _ h6 held)

  find_item-Fate :
      (k title : Bytes) (h : Handle MultiKeyDb)
      → IsPaired h
      → Fate h (MultiKey.find_item engine k title h)
  unfolding MultiKey.find_item
  find_item-Fate k title h p =
      then-Fate h _ _ (locked-Fate h _ p (λ h1 held. prepare-Fate engine _ h1 held))
        (λ _ h2 held. first_row_of-Fate (find_titled k title h2.tables) h2 held)

  module _ (first_row : List (HeaderRow × TimeRow) → Option (HeaderRow × TimeRow)) where
    -- Whatever SQLite answers, and as long as no mutex is held that is not needed, a call of any
    -- method of the store does one of two things. Where the mutex is needed, it returns and leaves
    -- the mutex locked, throws and leaves it unlocked, or waits for a mutex that its thread holds.
    -- Where it is not needed, it returns, or unlocks a mutex that is not locked; it never throws.
    pub perform-Fate :
        (r : Request) (h : Handle MultiKeyDb) → IsPaired h → Fate h (perform engine first_row r h)
    unfolding perform MultiKey.remove MultiKey.remove_oldest MultiKey.update MultiKey.count
        MultiKey.size MultiKey.find MultiKey.find_no_blob MultiKey.list MultiKey.list_headers
    perform-Fate clear h p = answer-Fate _ h _ (clear-Fate h p)
    perform-Fate (remove k title) h p =
        answer-Fate _ h _ (locked-Fate h _ p (λ h' held. exec-Fate engine _ _ h' held))
    perform-Fate remove_oldest h p =
        answer-Fate _ h _ (locked-Fate h _ p (λ h' held. exec-Fate engine _ _ h' held))
    perform-Fate (update k title time ttl) h p =
        answer-Fate _ h _ (locked-Fate h _ p (λ h' held. exec-Fate engine _ _ h' held))
    perform-Fate (insert k title time ttl blob) h p =
        answer-Fate _ h _ (insert-Fate k title time ttl blob h p)
    perform-Fate (count k) h p =
        answer-Fate _ h _ (locked-Fate h _ p (λ h' held. get_table-Fate engine _ _ _ h' held))
    perform-Fate size h p =
        answer-Fate _ h _ (locked-Fate h _ p (λ h' held. get_table-Fate engine _ _ _ h' held))
    perform-Fate (find_item k title) h p = answer-Fate _ h _ (find_item-Fate k title h p)
    perform-Fate (find k) h p =
        answer-Fate _ h _ (locked-Fate h _ p (λ h' held. select-Fate engine _ _ _ h' held))
    perform-Fate (find_no_blob k) h p =
        answer-Fate _ h _ (locked-Fate h _ p (λ h' held. select-Fate engine _ _ _ h' held))
    perform-Fate list h p =
        answer-Fate _ h _ (locked-Fate h _ p (λ h' held. select-Fate engine _ _ _ h' held))
    perform-Fate list_headers h p =
        answer-Fate _ h _ (locked-Fate h _ p (λ h' held. select-Fate engine _ _ _ h' held))
