-- ===== src/Db/Handle.antt =====
-- Sources/miniDHT_db.h and Sources/miniDHT_db.cpp: what the methods of both classes do around their
-- statements: the mutex, the answers of SQLite, and the errors.
-- `lock_it` is made with `defer_lock` and never locks: each method locks `local_lock_` itself, if
-- `need_mutex_` is set, and on its way out nothing unlocks it but the error paths.
pub mod KeyValue
pub mod MultiKey
pub mod Request
pub mod Fate
pub mod Opening
pub mod Works
use Prim.Native.String.{String}
use mini_dht.Base.{
  ℕ, zero, suc, Bool, true, false, not, List, [], ◌∷◌, ◌++◌, Option, none, some, Bytes,
  if◌then◌else◌,
}
use mini_dht.Contact.{decimal}

-- SQLite: whether it was built to be thread-safe, and which of its calls fail, with the code and
-- the message, and the messages where a constraint forbids a statement and where a first row is
-- missing. A statement that fails changes nothing.
pub record Engine : Type 0 where
  pub threadsafe : Bool
  pub failure : ℕ → Option (ℕ × Bytes)
  pub constraint_message : Bytes
  pub no_row_message : Bytes

-- An object of one of the classes, with the tables of its file: `locked` is the state of
-- `local_lock_`, `asked` the number of calls of SQLite and `statements` how many were prepared and
-- not finalized.
pub record Handle (D : Type 0) : Type 0 where
  pub need_mutex : Bool
  pub locked : Bool
  pub asked : ℕ
  pub statements : ℕ
  pub tables : D

-- A call returns, throws an error with its text in two parts, waits for a mutex that its own thread
-- holds, or unlocks a mutex that is not locked, which is undefined.
pub data Outcome (D A : Type 0) : Type 0 where
  returned : A → Handle D → Outcome D A
  thrown : String → Bytes → Handle D → Outcome D A
  blocked misused : Outcome D A

infixl 5 ◌>>=◌
abbrev pub ◌>>=◌ : {D A B : Type 0} → Outcome D A → (A → Handle D → Outcome D B) → Outcome D B
returned a h >>= f = f a h
thrown what why h >>= f = thrown what why h
blocked >>= f = blocked
misused >>= f = misused

-- One statement less.
unfoldable pub fewer : ℕ → ℕ
fewer zero = zero
fewer (suc n) = n

-- `while (sqlite3_step(stmt) == SQLITE_ROW)`: the rows up to the first step that fails, and the
-- number of calls after it. The end of the rows and an error are the same to the loop.
unfoldable pub step_rows : {A : Type 0} → Engine → List A → ℕ → List A × ℕ
step_rows engine [] asked = ([], suc asked)
step_rows engine (x ∷ xs) asked =
    let (ys, after) = step_rows engine xs (suc asked) in
    elim (engine.failure asked) [ none ↦ (x ∷ ys, after) | some (code, why) ↦ ([], suc asked) ]

module _ {D : Type 0} where
  -- `if (need_mutex_) local_lock_.lock();`
  unfoldable pub lock_it : Handle D → Outcome D (Unit {0})
  lock_it h =
      if h.need_mutex
      then (if h.locked then blocked else returned tt (record h { locked = true }))
      else returned tt h

  -- `local_lock_.unlock(); throw std::runtime_error(...);`
  unfoldable pub unlock_and_throw : {A : Type 0} → String → Bytes → Handle D → Outcome D A
  unlock_and_throw what why h =
      if h.locked then thrown what why (record h { locked = false }) else misused

  -- The next call of SQLite.
  abbrev pub asked_once : Handle D → Handle D
  asked_once h = record h { asked = suc h.asked }

  module _ (engine : Engine) where
    -- `sqlite3_exec` of a statement with an effect on the tables.
    unfoldable pub exec : String → (D → D) → Handle D → Outcome D (Unit {0})
    unfolding unlock_and_throw
    exec what effect h = elim (engine.failure h.asked) [
      | none ↦ returned tt (record (asked_once h) { tables = effect h.tables })
      | some (code, why) ↦ unlock_and_throw what why (asked_once h)
    ]

    -- The same of a statement that a constraint may forbid: `none` is an error.
    unfoldable pub exec_checked : String → (D → Option D) → Handle D → Outcome D (Unit {0})
    unfolding unlock_and_throw
    exec_checked what effect h = elim (engine.failure h.asked) [
      | some (code, why) ↦ unlock_and_throw what why (asked_once h)
      | none ↦ elim (effect h.tables) [
        | none ↦ unlock_and_throw what engine.constraint_message (asked_once h)
        | some db ↦ returned tt (record (asked_once h) { tables = db })
      ]
    ]

    -- `sqlite3_get_table`, and what is read off the table.
    unfoldable pub get_table : {A : Type 0} → String → Bytes → (D → A) → Handle D → Outcome D A
    unfolding unlock_and_throw
    get_table what detail query h = elim (engine.failure h.asked) [
      | none ↦ returned (query h.tables) (asked_once h)
      | some (code, why) ↦ unlock_and_throw what (detail ++ why) (asked_once h)
    ]

    unfoldable pub prepare : String → Handle D → Outcome D (Unit {0})
    unfolding unlock_and_throw
    prepare what h = elim (engine.failure h.asked) [
      | none ↦ returned tt (record (asked_once h) { statements = suc h.statements })
      | some (code, why) ↦ unlock_and_throw what why (asked_once h)
    ]

    -- The text of the error is fixed; the statement is gone either way.
    unfoldable pub finalize : String → Handle D → Outcome D (Unit {0})
    unfolding unlock_and_throw fewer
    finalize what h =
        let h' : Handle D = record (asked_once h) { statements = fewer h.statements } in
        elim (engine.failure h.asked) [
          | none ↦ returned tt h'
          | some (code, why) ↦ unlock_and_throw what [] h'
        ]

    -- A statement that is prepared, read to its end and finalized.
    unfoldable pub select :
        {A : Type 0} → String → String → (D → List A) → Handle D → Outcome D (List A)
    unfolding prepare step_rows finalize
    select what last query h = prepare what h >>= λ _ h1.
        let (rows, after) = step_rows engine (query h1.tables) h1.asked in
        finalize last (record h1 { asked = after }) >>= λ _ h2. returned rows h2

    -- `open` up to the call of `create_table`, on an object that holds no mutex; `file` is what the
    -- file holds. Where the mutex is needed, it is a scoped lock that holds it: after an error it
    -- unlocks it once more.
    unfoldable pub open_file : D → Handle D → Outcome D (Unit {0})
    open_file file h =
        let needed = not engine.threadsafe in
        let h' : Handle D = record (asked_once h) { need_mutex = needed } in
        elim (engine.failure h.asked) [
          | none ↦ returned tt (record h' { tables = file })
          | some (code, why) ↦
              if needed
              then misused
              else thrown "Can't open database (full mutex, err = "
                  (decimal code ++ (b' ' ∷ b':' ∷ b' ' ∷ []) ++ why) h'
        ]

    -- The destructor.
    unfoldable pub close : Handle D → Outcome D (Unit {0})
    unfolding lock_it
    close h = lock_it h >>= λ _ h'. returned tt (asked_once h')
