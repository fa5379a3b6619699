-- ===== src/Db/Handle/Works.antt =====
-- The stores where SQLite is thread-safe and none of its calls fails (Sources/miniDHT_db.cpp): the
-- methods do to the tables what Db.MultiKey says.
use Prim.Native.String.{String}
use mini_dht.Base.{
  ℕ, suc, ◌≡◌, refl, ap, true, false, not, List, [], ◌∷◌, Option, none, some, filter_by,
}
use mini_dht.Contact.{DataItemProto}
use mini_dht.Db.MultiKey
use mini_dht.Db.MultiKey.{HeaderRow, TimeRow, MultiKeyDb, delete_where, empty_db, find_titled}
use mini_dht.Db.Handle.{
  Engine, Handle, Outcome, returned, misused, ◌>>=◌, lock_it, unlock_and_throw, exec, get_table,
  prepare, step_rows, finalize, select,
}
use mini_dht.Db.Handle.MultiKey as Calls
use mini_dht.Db.Handle.MultiKey.{
  drop_headers, insert_header, insert_time, insert_item, bind_blob, create_table, first_row_of,
}
use mini_dht.Db.Handle.Request.{
  Answer, done, number, item, items, keyed, headers, answer, Request, clear, remove, remove_oldest,
  update, insert, count, size, find_item, find, find_no_blob, list, list_headers, perform,
  perform_all,
}

-- An engine none of whose calls fails.
abbrev pub working : Engine
working = record {
  threadsafe = true;
  failure = λ i. none;
  constraint_message = [];
  no_row_message = [];
}

-- A store that needs no mutex.
abbrev pub ready : ℕ → ℕ → MultiKeyDb → Handle MultiKeyDb
ready asked statements db = record {
  need_mutex = false;
  locked = false;
  asked = asked;
  statements = statements;
  tables = db;
}

module _ (first_row : List (HeaderRow × TimeRow) → Option (HeaderRow × TimeRow)) where
  -- What a method answers and makes of the tables; `none` is the error of `find` where there is no
  -- row.
  unfoldable pub meaning : Request → MultiKeyDb → Option (Answer × MultiKeyDb)
  meaning clear db = some (done, MultiKey.clear db)
  meaning (remove k title) db = some (done, MultiKey.remove k title db)
  meaning remove_oldest db = some (done, MultiKey.remove_oldest first_row db)
  meaning (update k title time ttl) db = some (done, MultiKey.update k title time ttl db)
  meaning (insert k title time ttl blob) db = some (done, MultiKey.insert k title time ttl blob db)
  meaning (count k) db = some (number (MultiKey.count k db), db)
  meaning size db = some (number (MultiKey.size db), db)
  meaning (find_item k title) db = elim (find_titled k title db) [
    | none ↦ none
    | some d ↦ some (item d, db)
  ]
  meaning (find k) db = some (items (MultiKey.find k db), db)
  meaning (find_no_blob k) db = some (items (MultiKey.find_no_blob k db), db)
  meaning list db = some (keyed (MultiKey.list db), db)
  meaning list_headers db = some (headers (MultiKey.list_headers db), db)

  unfoldable pub meaning_all : List Request → MultiKeyDb → Option (List Answer × MultiKeyDb)
  meaning_all [] db = some ([], db)
  meaning_all (r ∷ rs) db = elim (meaning r db) [
    | none ↦ none
    | some (a, db') ↦ elim (meaning_all rs db') [
      | none ↦ none
      | some (answers, end) ↦ some (a ∷ answers, end)
    ]
  ]

  -- The call returns this answer with these tables and no mutex held, and all statements that it
  -- prepared are gone; or it unlocks a mutex that is not locked.
  unfoldable pub Gives : {A : Type 0} → ℕ → Option (A × MultiKeyDb) → Outcome MultiKeyDb A → Type 0
  Gives n none o = o ≡ misused
  Gives n (some (a, db)) o = (asked : ℕ) × (o ≡ returned a (ready asked n db))

  all_dropped : (hs : List HeaderRow) → filter_by (λ h. not true) hs ≡ []
  all_dropped [] = refl
  all_dropped (h ∷ hs) = all_dropped hs

  rows_read : {A : Type 0} (xs : List A) (n : ℕ) → (step_rows working xs n).0 ≡ xs
  unfolding step_rows
  rows_read [] n = refl
  rows_read (x ∷ xs) n = ap (λ ys. x ∷ ys) (rows_read xs (suc n))

  selected :
      {A : Type 0} (n asked : ℕ) (f : List A → Answer) (what last : String)
      (query : MultiKeyDb → List A) (db : MultiKeyDb)
      → Gives n
          (some (f (query db), db))
          (answer f (lock_it (ready asked n db) >>= λ _ h. select working what last query h))
  unfolding Gives answer lock_it select prepare finalize
  selected n asked f what last query db =
      let (rows, after) = step_rows working (query db) (suc asked) in
      (
        suc after,
        ap (λ xs. returned (f xs) (ready (suc after) n db)) (rows_read (query db) (suc asked)),
      )

  found_item :
      (n asked : ℕ) (row : Option DataItemProto) (db : MultiKeyDb)
      → Gives n
          (elim row [ none ↦ none | some d ↦ some (item d, db) ])
          (answer item
            (first_row_of working row (record (ready asked n db) { statements = suc n })))
  unfolding Gives answer first_row_of unlock_and_throw finalize
  found_item n asked none db = refl
  found_item n asked (some d) db = (suc (suc asked), refl)

  perform-Gives :
      (n asked : ℕ) (r : Request) (db : MultiKeyDb)
      → Gives n (meaning r db) (perform working first_row r (ready asked n db))
  unfolding Gives meaning perform answer lock_it exec get_table prepare finalize bind_blob
      create_table drop_headers delete_where insert_header insert_time insert_item empty_db
      Calls.clear Calls.remove Calls.remove_oldest Calls.update Calls.insert Calls.count Calls.size
      Calls.find_item Calls.find Calls.find_no_blob Calls.list Calls.list_headers MultiKey.clear
      MultiKey.insert
  perform-Gives n asked clear db = (
    _,
    ap
        (λ hs. returned done (
          ready (suc (suc (suc (suc asked)))) n
            (record { next_id = 1; headers = hs; times = []; items = [] })))
        (all_dropped db.headers),
  )
  perform-Gives n asked (remove k title) db = (_, refl)
  perform-Gives n asked remove_oldest db = (_, refl)
  perform-Gives n asked (update k title time ttl) db = (_, refl)
  perform-Gives n asked (insert k title time ttl blob) db = (_, refl)
  perform-Gives n asked (count k) db = (_, refl)
  perform-Gives n asked size db = (_, refl)
  perform-Gives n asked (find_item k title) db = found_item n _ (find_titled k title db) db
  perform-Gives n asked (find k) db = selected n asked items _ _ (MultiKey.find k) db
  perform-Gives n asked (find_no_blob k) db =
      selected n asked items _ _ (MultiKey.find_no_blob k) db
  perform-Gives n asked list db = selected n asked keyed _ _ MultiKey.list db
  perform-Gives n asked list_headers db = selected n asked headers _ _ MultiKey.list_headers db

  then_gives :
      (n : ℕ) (r : Request) (rs : List Request) (m : Option (Answer × MultiKeyDb))
      (o : Outcome MultiKeyDb Answer)
      → Gives n m o
      → ((asked : ℕ) (db : MultiKeyDb)
          → Gives n (meaning_all rs db) (perform_all working first_row rs (ready asked n db)))
      → Gives n
          (elim m [
            | none ↦ none
            | some (a, db') ↦ elim (meaning_all rs db') [
              | none ↦ none
              | some (answers, end) ↦ some (a ∷ answers, end)
            ]
          ])
          (o >>= λ a h1.
            perform_all working first_row rs h1 >>= λ answers h2. returned (a ∷ answers) h2)
  unfolding Gives
  then_gives n r rs none o e f = rw e refl
  then_gives n r rs (some (a, db')) o (asked, e) f =
      rw e (later (meaning_all rs db') _ (f asked db'))
    where
      later :
          (m : Option (List Answer × MultiKeyDb)) (o : Outcome MultiKeyDb (List Answer))
          → Gives n m o
          → Gives n
              (elim m [ none ↦ none | some (answers, end) ↦ some (a ∷ answers, end) ])
              (o >>= λ answers h2. returned (a ∷ answers) h2)
      later none o e = rw e refl
      later (some (answers, end)) o (asked, e) = (asked, rw e refl)

  -- With a SQLite that is thread-safe and none of whose calls fails, a run of calls of a store
  -- that needs no mutex answers what the methods of Db.MultiKey answer and leaves the tables that
  -- they leave, with no mutex held and no statement left over; a `find` by key and title that
  -- finds no row unlocks a mutex that is not locked.
  pub perform_all-Gives :
      (rs : List Request) (n asked : ℕ) (db : MultiKeyDb)
      → Gives n (meaning_all rs db) (perform_all working first_row rs (ready asked n db))
  unfolding Gives meaning_all perform_all
  perform_all-Gives [] n asked db = (asked, refl)
  perform_all-Gives (r ∷ rs) n asked db =
      then_gives n r rs (meaning r db) (perform working first_row r (ready asked n db))
        (perform-Gives n asked r db) (λ asked' db'. perform_all-Gives rs n asked' db')
