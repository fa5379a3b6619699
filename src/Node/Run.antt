-- ===== src/Node/Run.antt =====
-- The life of a node (Sources/miniDHT.cpp), from the constructor on: it stays sound, with handlers
-- and public methods between the segments of the thread of `periodic`.
pub mod Rest
use mathlib.Core.Path.{subst}
use mini_dht.Base.{ℕ, ◌<◌, List, [], ◌∷◌, Option, Bytes, ◌≡◌, refl, Option-cases, inl, inr}
use mini_dht.Key.Digest.{key_to_string}
use mini_dht.Key.Local.{Hasher, Host, Files, local_key}
use mini_dht.Contact.{
  EndpointProto, TcpEndpoint, DataItemProto, MessageProto, string_to_endpoint_pair,
}
use mini_dht.Bucket.{new_bucket}
use mini_dht.Bucket.Valid.{new_bucket-IsValid}
use mini_dht.Db.KeyValue.{KeyValueDb, list_value}
use mini_dht.Db.MultiKey.{MultiKeyDb}
use mini_dht.Db.Consistent.{IsConsistent}
use mini_dht.Db.Oldest.{IsOrdering}
use mini_dht.Node.State.{Env, Node, Result, ok, fault, ◌>>=◌, draw_token}
use mini_dht.Node.Keeps.{noted, send_ping_to-Keeps, send_ping_key-Keeps}
use mini_dht.Node.Send.{send_ping_to}
use mini_dht.Node.Handle.{handle_receive, handle_disconnect, ping_addresses, restore_from_backup}
use mini_dht.Node.Iterate.{iterative_find_value}
use mini_dht.Node.Thread.{Phase, waiting, segment}
use mini_dht.Node.Thread.Moves.{Moves, segment-Moves}
use mini_dht.Node.Disconnect.{LeavesSound, EndsSound-LeavesSound, handle_disconnect-LeavesSound}
use mini_dht.Node.Public.{
  store, find_node, ping_endpoint, ping_key, set_max_record, initial_node, new_node,
}
use mini_dht.Node.Sound.{IsSound, IsSound-Keeps}
use mini_dht.Node.Sound.Message.{handle_receive-IsSound}
use mini_dht.Node.Sound.Lookup.{
  iterative_store-EndsSound, iterative_find_node-EndsSound, iterative_find_value-EndsSound,
}

-- What may happen to a node, where it comes to an end without a fault.
pub data Event (env : Env) : Node → Node → Type 0 where
  received :
      (now : ℕ) (ep : TcpEndpoint) (m : MessageProto) (n t : Node)
      → handle_receive env now ep m n ≡ ok t
      → Event env n t
  disconnected : (ep : TcpEndpoint) (n t : Node) → handle_disconnect ep n ≡ ok t → Event env n t
  stored :
      (now : ℕ) (k : Bytes) (d : DataItemProto) (n t : Node)
      → store env now k d n ≡ ok t
      → Event env n t
  node_searched : (now : ℕ) (k : Bytes) (n t : Node) → find_node env now k n ≡ ok t → Event env n t
  value_searched :
      (now : ℕ) (k : Bytes) (c : Option ℕ) (hint : Bytes) (n t : Node)
      → iterative_find_value env now k c hint n ≡ ok t
      → Event env n t
  endpoint_pinged :
      (now : ℕ) (epp : EndpointProto) (t : ℕ) (n : Node)
      → Event env n (ping_endpoint env now epp t n)
  key_pinged : (now : ℕ) (k : Bytes) (t : ℕ) (n : Node) → Event env n (ping_key env now k t n)
  limited : (val : ℕ) (n : Node) → 0 < val → Event env n (set_max_record val n)

-- A run from a phase of the thread of `periodic` and a node: what happens to the node, and segments
-- of the thread that end without a fault, in any order.
pub data Run (env : Env) (p : Phase) (n : Node) : Phase → Node → Type 0 where
  begun : Run env p n p n
  after : {q : Phase} {t u : Node} → Run env p n q t → Event env t u → Run env p n q u
  moved :
      (now : ℕ) {q r : Phase} {t u : Node}
      → Run env p n q t
      → segment env now q t ≡ ok (r, u)
      → Run env p n r u

initial_node-IsSound :
    (id : Bytes) (max_records : ℕ) (db : MultiKeyDb) (backup : KeyValueDb)
    → 0 < max_records
    → IsConsistent db
    → IsSound (initial_node id max_records db backup)
unfolding initial_node new_bucket
initial_node-IsSound id max_records db backup some_room consistent = record {
  contacts = new_bucket-IsValid id;
  own_key = refl;
  store = consistent;
  room = some_room;
  signed = tt;
}

with_limit : (val : ℕ) (n : Node) → 0 < val → IsSound n → IsSound (set_max_record val n)
unfolding set_max_record
with_limit val n some_room s = record {
  contacts = s.contacts;
  own_key = s.own_key;
  store = s.store;
  room = some_room;
  signed = s.signed;
}

ok-IsSound : (r : Result Node) (t : Node) → LeavesSound r → r ≡ ok t → IsSound t
ok-IsSound r t s e = subst LeavesSound e s

module _ (env : Env) (order : IsOrdering env.first_row) where
  ping_addresses-LeavesSound :
      (now : ℕ) (vs : List Bytes) (n : Node) → IsSound n → LeavesSound (ping_addresses env now vs n)
  unfolding ping_addresses draw_token
  ping_addresses-LeavesSound now [] n s = s
  ping_addresses-LeavesSound now (v ∷ vs) n s = elim (Option-cases (string_to_endpoint_pair v)) [
    | inl malformed ↦ rw (malformed, ping_addresses) tt
    | inr ((address, port), read) ↦
        let (t, n') = draw_token env n in
        let ep : EndpointProto = record { address = address; port = port } in
        rw (read, ping_addresses)
          (ping_addresses-LeavesSound now vs (send_ping_to env now ep t n') (
            IsSound-Keeps (send_ping_to-Keeps env now ep t n')
              (IsSound-Keeps (noted n.map_ping_ttl n.map_store_check_val _ n) s)))
  ]

  pub Event-IsSound : {n t : Node} → Event env n t → IsSound n → IsSound t
  Event-IsSound (received now ep m n t e) s =
      ok-IsSound _ t (EndsSound-LeavesSound _ (handle_receive-IsSound env order now ep m n s)) e
  Event-IsSound (disconnected ep n t e) s = ok-IsSound _ t (handle_disconnect-LeavesSound ep n s) e
  Event-IsSound (stored now k d n t e) s =
      ok-IsSound _ t (EndsSound-LeavesSound _ (iterative_store-EndsSound env now k d n s))
        (unfold store in e)
  Event-IsSound (node_searched now k n t e) s =
      ok-IsSound _ t (EndsSound-LeavesSound _ (iterative_find_node-EndsSound env now k n s))
        (unfold find_node in e)
  Event-IsSound (value_searched now k c hint n t e) s =
      ok-IsSound _ t (EndsSound-LeavesSound _ (iterative_find_value-EndsSound env now k c hint n s))
        e
  Event-IsSound (endpoint_pinged now epp t n) s =
      unfold ping_endpoint in IsSound-Keeps (send_ping_to-Keeps env now epp t n) s
  Event-IsSound (key_pinged now k t n) s =
      unfold ping_key in IsSound-Keeps (send_ping_key-Keeps env now k t n) s
  Event-IsSound (limited val n some_room) s = with_limit val n some_room s

  Run-kept : {p : Phase} {n : Node} {q : Phase} {t : Node} → Run env p n q t → IsSound n → IsSound t
  Run-kept begun s = s
  Run-kept (after r e) s = Event-IsSound e (Run-kept r s)
  Run-kept (moved now {q = q} {t = t} r e) s =
      (subst (Moves now q t) e (segment-Moves env now q t (Run-kept r s))).0

-- The same of the constructor, which also writes a file.
abbrev StartsSound : Result (Node × Files) → Type 0
StartsSound (ok (n, files)) = IsSound n
StartsSound (fault e) = Unit

with_files :
    (r : Result Node) (files : Files) → LeavesSound r → StartsSound (r >>= (λ n. ok (n, files)))
with_files (ok n) files s = s
with_files (fault e) files s = tt

new_node-StartsSound :
    {Context : Type 0} (sha : Hasher Context) (host : Host) (port : ℕ) (path : Bytes)
    (max_records : ℕ) (files : Files) (db : MultiKeyDb) (backup : KeyValueDb) (env : Env) (now : ℕ)
    → IsOrdering env.first_row
    → 0 < max_records
    → IsConsistent db
    → StartsSound (new_node env sha host port path max_records files db backup now)
unfolding new_node restore_from_backup
new_node-StartsSound sha host port path max_records files db backup env now order some_room
      consistent =
    elim (Option-cases (local_key sha host 2 port path now files)) [
      | inl endless ↦ rw (endless, new_node) tt
      | inr ((k, files'), read) ↦
          let start = initial_node (key_to_string k) max_records db backup in
          rw (read, new_node)
            (with_files (ping_addresses env now (list_value start.db_backup) start) files' (
              ping_addresses-LeavesSound env order now (list_value start.db_backup) start (
                initial_node-IsSound (key_to_string k) max_records db backup some_room consistent)))
    ]

-- A node whose constructor ends, with room for some record, a consistent store on the disk and a
-- database that orders its rows as it documents, is sound, and stays so in every run of messages,
-- disconnections, searches, stores and pings, of changes of the limit to a number that is not 0,
-- and of segments of the thread of `periodic`, in any order, each of which ends without a fault.
pub Run-IsSound :
    {Context : Type 0} (sha : Hasher Context) (host : Host) (port : ℕ) (path : Bytes)
    (max_records : ℕ) (files files' : Files) (db : MultiKeyDb) (backup : KeyValueDb) (env : Env)
    (now at : ℕ) {n t : Node} {q : Phase}
    → IsOrdering env.first_row
    → 0 < max_records
    → IsConsistent db
    → new_node env sha host port path max_records files db backup now ≡ ok (n, files')
    → Run env (waiting at) n q t
    → IsSound t
Run-IsSound sha host port path max_records files files' db backup env now at order some_room
      consistent e r =
    Run-kept env order r (
      subst StartsSound e (
        new_node-StartsSound sha host port path max_records files db backup env now order some_room
          consistent))
