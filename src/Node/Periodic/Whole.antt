-- ===== src/Node/Periodic/Whole.antt =====
-- The method `periodic` of Sources/miniDHT.cpp as a whole.
use mathlib.Core.Path.{subst}
use mini_dht.Base.{
  ◌≡◌, sym, ap, refl, true, false, ℕ, zero, suc, ◌+◌, ◌-◌, List, [], ◌∷◌, Bytes, ◌==◌, length,
  Bool-cases, Option-cases, inl, inr,
}
use mini_dht.Key.Bits.{key_size}
use mini_dht.Bucket.{Entry, random_key_in_bucket}
use mini_dht.Bucket.Multimap.{count}
use mini_dht.Db.MultiKey.{DataItemHeader, has_title, remove, find_titled, list_headers}
use mini_dht.Db.Consistent.{delete_where-IsConsistent}
use mini_dht.Node.State.{Env, Node, Result, ok, fault, exception, undefined, out_of_fuel, ◌>>=◌}
use mini_dht.Node.Keeps.{noted}
use mini_dht.Node.Sound.{IsSound, EndsSound, IsSound-Keeps}
use mini_dht.Node.Sound.Lookup.{iterative_store-EndsSound, iterative_find_node-EndsSound}
use mini_dht.Node.Iterate.{iterative_store, iterative_find_node}
use mini_dht.Node.Periodic.{
  is_stale, remaining_ttl, refresh_contacts, fill_buckets, is_over, revisit, republish, periodic,
}
use mini_dht.Node.Periodic.Contacts.{Settles, refresh_contacts-Settles}

pub EndsSound-Settles : (r : Result Node) → EndsSound r → Settles r
EndsSound-Settles (ok n) s = s
EndsSound-Settles (fault exception) s = tt
EndsSound-Settles (fault undefined) s = tt
EndsSound-Settles (fault out_of_fuel) s = s

pub then_Settles :
    (r : Result Node) (f : Node → Result Node)
    → Settles r
    → ((n : Node) → IsSound n → Settles (f n))
    → Settles (r >>= f)
then_Settles (ok n) f s g = g n s
then_Settles (fault exception) f s g = tt
then_Settles (fault undefined) f s g = tt
then_Settles (fault out_of_fuel) f s g = s

removed-IsSound :
    (k title : Bytes) (n : Node)
    → IsSound n
    → IsSound (record n { db_storage = remove k title n.db_storage })
unfolding remove
removed-IsSound k title n s = record {
  contacts = s.contacts;
  own_key = s.own_key;
  store = delete_where-IsConsistent (has_title k title) n.db_storage s.store;
  room = s.room;
  signed = s.signed;
}

module _ (env : Env) (now : ℕ) where
  pub fill_buckets-Settles :
      (left i : ℕ) (n : Node) → IsSound n → Settles (fill_buckets env now left i n)
  unfolding fill_buckets
  fill_buckets-Settles zero i n s = s
  fill_buckets-Settles (suc left) i n s =
      let skey = random_key_in_bucket env.random n.drawn i n.contact_list in
      let n' : Node = record n { drawn = n.drawn + (key_size - i) } in
      elim (Bool-cases (count i n.contact_list.entries == 0)) [
        | inl empty ↦ rw empty (
            then_Settles (iterative_find_node env now skey n')
              (λ m. fill_buckets env now left (suc i) m)
              (EndsSound-Settles (iterative_find_node env now skey n') (
                iterative_find_node-EndsSound env now skey n'
                  (IsSound-Keeps (noted n.map_ping_ttl n.map_store_check_val _ n) s)))
              (λ m. fill_buckets-Settles left (suc i) m))
        | inr filled ↦ rw filled (fill_buckets-Settles left (suc i) n s)
      ]

  pub revisit-Settles :
      (check_time : ℕ) (h : DataItemHeader) (n : Node)
      → IsSound n
      → Settles (revisit env now check_time h n)
  unfolding revisit
  revisit-Settles check_time h n s = elim (Bool-cases (is_over check_time h)) [
    | inl over ↦ rw over (removed-IsSound h.key h.title n s)
    | inr valid ↦ elim (Option-cases (find_titled h.key h.title n.db_storage)) [
      | inl missing ↦ rw (valid, missing, revisit) tt
      | inr (item, found) ↦
          let d = record item { ttl = remaining_ttl check_time h.time item.ttl } in
          rw (valid, found, revisit)
            (EndsSound-Settles (iterative_store env now h.key d n)
              (iterative_store-EndsSound env now h.key d n s))
    ]
  ]

  republish-Settles :
      (hs : List DataItemHeader) (n : Node) → IsSound n → Settles (republish env now hs n)
  unfolding republish
  republish-Settles [] n s = s
  republish-Settles (h ∷ hs) n s =
      then_Settles (revisit env now now h n) (λ m. republish env now hs m)
        (revisit-Settles now h n s) (λ m. republish-Settles hs m)

  -- On a sound node `periodic` ends: it leaves the node sound, throws, or reaches undefined
  -- behaviour, and its loop over the contacts needs no more erasures than there are contacts.
  pub periodic-Settles : (n : Node) → IsSound n → Settles (periodic env now n)
  unfolding periodic
  periodic-Settles n s =
      then_Settles
        (refresh_contacts env now (length n.contact_list.entries) [] n.contact_list.entries n)
        (λ n1. fill_buckets env now (key_size - 1) 0 n1 >>= λ n2.
          republish env now (list_headers n2.db_storage) n2)
        (refresh_contacts-Settles env now n s)
        (λ n1 s1.
          then_Settles (fill_buckets env now (key_size - 1) 0 n1)
            (λ n2. republish env now (list_headers n2.db_storage) n2)
            (fill_buckets-Settles (key_size - 1) 0 n1 s1)
            (λ n2. republish-Settles (list_headers n2.db_storage) n2))

alone :
    (env : Env) (now : ℕ) (e : Entry) (n : Node)
    → (e.0 == key_size) ≡ false
    → is_stale now e.1 ≡ true
    → refresh_contacts env now 1 [] (e ∷ []) n ≡ fault undefined
unfolding refresh_contacts
alone env now e n other stale = rw (other, stale) refl

-- If the only contact of the list is too old, and not filed under KEY_SIZE, `periodic` moves an
-- iterator past the end, which is undefined.
pub periodic_alone :
    (env : Env) (now : ℕ) (e : Entry) (n : Node)
    → n.contact_list.entries ≡ e ∷ []
    → (e.0 == key_size) ≡ false
    → is_stale now e.1 ≡ true
    → periodic env now n ≡ fault undefined
unfolding periodic
periodic_alone env now e n one other stale =
    ap
      (λ (r : Result Node). r >>= λ n1. fill_buckets env now (key_size - 1) 0 n1 >>= λ n2.
        republish env now (list_headers n2.db_storage) n2)
      (subst (λ (es : List Entry). refresh_contacts env now (length es) [] es n ≡ fault undefined)
        (sym one) (alone env now e n other stale))
