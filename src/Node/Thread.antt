-- ===== src/Node/Thread.antt =====
-- Sources/miniDHT.cpp: the thread that runs `periodic`, one hold of `giant_lock_` after the other.
-- Between two segments the lock is free, and the handlers and the public methods may run.
pub mod Moves
pub mod Replaced
use mini_dht.Base.{ℕ, suc, ◌+◌, ◌-◌, ◌*◌, ◌%◌, List, [], ◌∷◌, leb, if◌then◌else◌, length}
use mini_dht.Key.Bits.{key_size}
use mini_dht.Db.MultiKey.{DataItemHeader, list_headers}
use mini_dht.Node.State.{Env, Node, Result, ok, fault, ◌>>=◌}
use mini_dht.Node.Periodic.{periodic_minutes, refresh_contacts, fill_buckets, revisit}

-- Where the thread stands: before the contacts, before the buckets, before the list of headers, in
-- the loop with the time of the check and the headers that are left, or at the timer, with the time
-- it expires at.
pub data Phase : Type 0 where
  contacts buckets snapshot : Phase
  records : ℕ → List DataItemHeader → Phase
  waiting : ℕ → Phase

-- `dt_.expires_at(now + wait_time)`: `periodic_` is PERIODIC minutes.
unfoldable pub next_alarm : Env → ℕ → Node → ℕ
next_alarm env now n = now + (periodic_minutes * 60000000 + env.random n.drawn % 60 * 1000000)

-- The lock is released, and the thread goes on in a phase.
unfoldable pub go_to : Phase → Node → Result (Phase × Node)
go_to p n = ok (p, n)

module _ (env : Env) (now : ℕ) where
  -- What the thread does under one hold of the lock.
  unfoldable pub segment : Phase → Node → Result (Phase × Node)
  unfolding next_alarm go_to
  segment contacts n =
      refresh_contacts env now (length n.contact_list.entries) [] n.contact_list.entries n
      >>= go_to buckets
  segment buckets n = fill_buckets env now (key_size - 1) 0 n >>= go_to snapshot
  segment snapshot n = ok (records now (list_headers n.db_storage), n)
  segment (records check_time []) n =
      ok (waiting (next_alarm env now n), record n { drawn = suc n.drawn })
  segment (records check_time (h ∷ hs)) n =
      revisit env now check_time h n >>= go_to (records check_time hs)
  segment (waiting at) n = ok (if leb at now then contacts else waiting at, n)
