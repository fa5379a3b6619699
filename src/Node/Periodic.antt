-- ===== src/Node/Periodic.antt =====
-- Sources/miniDHT.cpp: `periodic`, in its three parts, with the clock read once and nothing in
-- between. Node.Thread has the thread that runs it, where a handler may run between the parts and
-- between the records of the last one.
pub mod Contacts
pub mod Whole
use mini_dht.Base.{
  ℕ, zero, suc, ◌+◌, ◌-◌, ◌*◌, ◌/◌, ◌%◌, ◌^◌, Bool, true, false, List, [], ◌∷◌, ◌++◌, Option, none,
  some, Bytes, ltb, leb, ◌==◌, if◌then◌else◌, length,
}
use mini_dht.Key.Bits.{key_size}
use mini_dht.Contact.{DataItemProto, ContactProto, time_of, endpoint_to_string}
use mini_dht.Bucket.{Entry, random_key_in_bucket}
use mini_dht.Bucket.Multimap
use mini_dht.Db.KeyValue
use mini_dht.Db.KeyValue.{replace}
use mini_dht.Db.MultiKey
use mini_dht.Db.MultiKey.{DataItemHeader, find_titled, list_headers}
use mini_dht.Node.State.{
  Env, Node, Result, ok, fault, exception, undefined, out_of_fuel, ◌>>=◌, draw_token,
}
use mini_dht.Node.Send.{send_ping_key}
use mini_dht.Node.Iterate.{iterative_store, iterative_find_node}

-- miniDHT_const.h, line 57: minutes.
abbrev pub periodic_minutes : ℕ
periodic_minutes = 5

-- `update_time() - from_time_t(time) > tRefresh`, with the time added on both sides.
unfoldable pub is_stale : ℕ → ContactProto → Bool
is_stale now c = ltb (time_of c * 1000000 + periodic_minutes * 60000000) now

-- The ttl of a record that is republished: `item.ttl() - time_elapsed.total_seconds()` on 64 bits,
-- where a time that lies ahead makes the difference negative.
unfoldable pub remaining_ttl : ℕ → ℕ → ℕ → ℕ
remaining_ttl now time ttl =
    if leb (time * 1000000) now
    then (ttl + 2 ^ 64 - ((now - time * 1000000) / 1000000)) % 2 ^ 64
    else (ttl + (time * 1000000 - now) / 1000000) % 2 ^ 64

-- `check_time - from_time_t(h.time) > seconds(h.ttl)`, with the time added on both sides. The 64 bits
-- of a ttl are kept as a `long long`, so one of 2^63 or more is negative.
unfoldable pub is_over : ℕ → DataItemHeader → Bool
is_over check_time h =
    if ltb h.ttl (2 ^ 63)
    then ltb (h.time * 1000000 + h.ttl * 1000000) check_time
    else ltb (h.time * 1000000) (check_time + (2 ^ 64 - h.ttl) * 1000000)

module _ (env : Env) (now : ℕ) where
  -- A contact that is too old is pinged and dropped from the backup and from the contact list, of
  -- which `es` is the rest.
  unfoldable pub forget_contact : Entry → List Entry → Node → Node
  unfolding draw_token
  forget_contact e es n =
      let (t, n') = draw_token env n in
      let n'' = send_ping_key env now e.1.key t n' in
      record n'' {
        db_backup = KeyValue.remove e.1.key n''.db_backup;
        contact_list = record n''.contact_list { entries = es };
      }

  -- The loop over the contacts, with those before the iterator and those from it on. As in
  -- `remove_contact`, the iterator is set to `begin()` after an erasure and then moved on by one;
  -- `fuel` counts the erasures. An insertion that fails unlocks a mutex that it has not locked.
  unfoldable pub refresh_contacts : ℕ → List Entry → List Entry → Node → Result Node
  unfolding is_stale forget_contact
  refresh_contacts fuel before [] n = ok n
  refresh_contacts zero before (e ∷ es) n =
      let skipped = refresh_contacts zero (before ++ e ∷ []) es n in
      let kept : Result Node = elim (replace e.1.key (endpoint_to_string e.1.ep) n.db_backup) [
        | none ↦ fault undefined
        | some db ↦ refresh_contacts zero (before ++ e ∷ []) es (record n { db_backup = db })
      ] in
      if e.0 == key_size then skipped else if is_stale now e.1 then fault out_of_fuel else kept
  refresh_contacts (suc fuel) before (e ∷ es) n =
      let skipped = refresh_contacts (suc fuel) (before ++ e ∷ []) es n in
      let kept : Result Node = elim (replace e.1.key (endpoint_to_string e.1.ep) n.db_backup) [
        | none ↦ fault undefined
        | some db ↦ refresh_contacts (suc fuel) (before ++ e ∷ []) es (record n { db_backup = db })
      ] in
      let again : Result Node = elim (before ++ es) [
        | [] ↦ fault undefined
        | first ∷ rest ↦ refresh_contacts fuel (first ∷ []) rest (forget_contact e (before ++ es) n)
      ] in
      if e.0 == key_size then skipped else if is_stale now e.1 then again else kept

  -- `for (i = 0; i < KEY_SIZE - 1; ++i)`: a search for a random key of each empty bucket.
  unfoldable pub fill_buckets : ℕ → ℕ → Node → Result Node
  fill_buckets zero i n = ok n
  fill_buckets (suc left) i n =
      let skey = random_key_in_bucket env.random n.drawn i n.contact_list in
      if Multimap.count i n.contact_list.entries == 0
      then (iterative_find_node env now skey (record n { drawn = n.drawn + (key_size - i) })
          >>= λ n'. fill_buckets left (suc i) n')
      else fill_buckets left (suc i) n

  -- One header of the store: a record that is over is removed, another one is stored again.
  -- `check_time` is read before the loop. Where `find` has no row, it unlocks a mutex that it has not
  -- locked, which is undefined.
  unfoldable pub revisit : ℕ → DataItemHeader → Node → Result Node
  unfolding remaining_ttl
  revisit check_time h n =
      let stored : Result Node = elim (find_titled h.key h.title n.db_storage) [
        | none ↦ fault undefined
        | some item ↦
            iterative_store env now h.key
              (record item { ttl = remaining_ttl check_time h.time item.ttl }) n
      ] in
      if is_over check_time h
      then ok (record n { db_storage = MultiKey.remove h.key h.title n.db_storage })
      else stored

  -- The loop over the headers of the store.
  unfoldable pub republish : List DataItemHeader → Node → Result Node
  unfolding revisit
  republish [] n = ok n
  republish (h ∷ hs) n = revisit now h n >>= λ n'. republish hs n'

  -- The three parts, one after the other.
  unfoldable pub periodic : Node → Result Node
  periodic n =
      refresh_contacts (length n.contact_list.entries) [] n.contact_list.entries n >>= λ n1.
      fill_buckets (key_size - 1) 0 n1 >>= λ n2. republish (list_headers n2.db_storage) n2
