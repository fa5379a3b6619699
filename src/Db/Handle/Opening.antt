-- ===== src/Db/Handle/Opening.antt =====
-- The stores where SQLite is not thread-safe (Sources/miniDHT_db.cpp).
use mini_dht.Base.{suc, ◌≡◌, refl, true, false, List, Option, none}
use mini_dht.Db.MultiKey.{HeaderRow, TimeRow, MultiKeyDb}
use mini_dht.Db.Handle.{Engine, Handle, returned, blocked, lock_it, exec, open_file, close}
use mini_dht.Db.Handle.MultiKey
use mini_dht.Db.Handle.MultiKey.{open_db, create_table}
use mini_dht.Db.Handle.Request.{
  answer, Request, clear, remove, remove_oldest, update, insert, count, size, find_item, find,
  find_no_blob, list, list_headers, perform,
}

waits : {D : Type 0} (h : Handle D) → h.need_mutex ≡ true → h.locked ≡ true → lock_it h ≡ blocked
unfolding lock_it
waits h needed held = rw (needed, held) refl

module _ (engine : Engine)
    (first_row : List (HeaderRow × TimeRow) → Option (HeaderRow × TimeRow)) where
  perform-blocked :
      (r : Request) (h : Handle MultiKeyDb)
      → h.need_mutex ≡ true
      → h.locked ≡ true
      → perform engine first_row r h ≡ blocked
  unfolding perform answer MultiKey.clear MultiKey.remove MultiKey.remove_oldest MultiKey.update
      MultiKey.insert MultiKey.count MultiKey.size MultiKey.find_item MultiKey.find
      MultiKey.find_no_blob MultiKey.list MultiKey.list_headers
  perform-blocked clear h needed held = rw (waits h needed held) refl
  perform-blocked (remove k title) h needed held = rw (waits h needed held) refl
  perform-blocked remove_oldest h needed held = rw (waits h needed held) refl
  perform-blocked (update k title time ttl) h needed held = rw (waits h needed held) refl
  perform-blocked (insert k title time ttl blob) h needed held = rw (waits h needed held) refl
  perform-blocked (count k) h needed held = rw (waits h needed held) refl
  perform-blocked size h needed held = rw (waits h needed held) refl
  perform-blocked (find_item k title) h needed held = rw (waits h needed held) refl
  perform-blocked (find k) h needed held = rw (waits h needed held) refl
  perform-blocked (find_no_blob k) h needed held = rw (waits h needed held) refl
  perform-blocked list h needed held = rw (waits h needed held) refl
  perform-blocked list_headers h needed held = rw (waits h needed held) refl

  -- With a SQLite that is not thread-safe, a store that is opened on a free mutex, neither call of
  -- SQLite failing, has its mutex locked for good: whichever method is called next waits for ever,
  -- and so does the destructor.
  pub opened_waits :
      (file : MultiKeyDb) (h : Handle MultiKeyDb)
      → engine.threadsafe ≡ false
      → h.locked ≡ false
      → engine.failure h.asked ≡ none
      → engine.failure (suc h.asked) ≡ none
      → (h' : Handle MultiKeyDb) × (open_db engine file h ≡ returned tt h')
        × (h'.tables ≡ file)
        × ((r : Request) → perform engine first_row r h' ≡ blocked)
        × (close engine h' ≡ blocked)
  unfolding open_db open_file create_table lock_it exec close
  opened_waits file h unsafe free works works' =
      let h' : Handle MultiKeyDb = record {
        need_mutex = true;
        locked = true;
        asked = suc (suc h.asked);
        statements = h.statements;
        tables = file;
      } in
      (h', rw (unsafe, works, free, works') refl, refl, λ r. perform-blocked r h' refl refl, refl)
