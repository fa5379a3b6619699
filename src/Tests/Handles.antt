-- ===== src/Tests/Handles.antt =====
-- The stores with their mutex and the errors of SQLite.
use mini_dht.Base.{true, false, [], ◌∷◌, none, some, Bytes, ◌≡◌, refl, ◌==◌, if◌then◌else◌}
use mini_dht.Db.MultiKey.{MultiKeyDb, empty_db}
use mini_dht.Db.Oldest.{preferring}
use mini_dht.Db.Handle.{Engine, Handle, returned, blocked, close}
use mini_dht.Db.Handle.MultiKey.{open_db}
use mini_dht.Db.Handle.Request.{Request, insert, find_item, list_headers, perform, perform_all}
use mini_dht.Db.Handle.Fate.{Fate}
use mini_dht.Db.Handle.Fate.MultiKey.{perform-Fate}
use mini_dht.Db.Handle.Opening.{opened_waits}
use mini_dht.Db.Handle.Works.{working, ready, meaning_all, Gives, perform_all-Gives}
use mini_dht.Tests.Data.{alice}

abbrev title : Bytes
title = b't' ∷ []

perform_all-Gives_example :
    Gives
      (preferring 0)
      0
      (meaning_all
        (preferring 0)
        (insert alice title 3 60 (1 ∷ []) ∷ find_item alice title ∷ list_headers ∷ [])
        empty_db)
      (perform_all working
        (preferring 0)
        (insert alice title 3 60 (1 ∷ []) ∷ find_item alice title ∷ list_headers ∷ [])
        (ready 0 0 empty_db))
perform_all-Gives_example =
    perform_all-Gives (preferring 0)
      (insert alice title 3 60 (1 ∷ []) ∷ find_item alice title ∷ list_headers ∷ []) 0 0 empty_db

-- A SQLite that is not thread-safe and whose second call fails.
abbrev failing : Engine
failing = record {
  threadsafe = false;
  failure = λ i. if i == 1 then some (13, b'f' ∷ []) else none;
  constraint_message = [];
  no_row_message = [];
}

abbrev calm : Engine
calm = record {
  threadsafe = false;
  failure = λ i. none;
  constraint_message = [];
  no_row_message = [];
}

-- A store with a mutex that is free.
abbrev free : Handle MultiKeyDb
free = record { need_mutex = true; locked = false; asked = 0; statements = 0; tables = empty_db }

perform-Fate_example :
    Fate free (perform failing (preferring 0) (insert alice title 3 60 (1 ∷ [])) free)
perform-Fate_example =
    perform-Fate failing (preferring 0) (insert alice title 3 60 (1 ∷ [])) free (λ unneeded. refl)

opened_waits_example :
    (h' : Handle MultiKeyDb) × (open_db calm empty_db free ≡ returned tt h')
    × (h'.tables ≡ empty_db)
    × ((r : Request) → perform calm (preferring 0) r h' ≡ blocked)
    × (close calm h' ≡ blocked)
opened_waits_example = opened_waits calm (preferring 0) empty_db free refl refl refl refl
