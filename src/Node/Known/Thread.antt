-- ===== src/Node/Known/Thread.antt =====
-- A lost connection and the thread of `periodic` (Sources/miniDHT.cpp) make no contact.
use mini_dht.Base.{
  ℕ, zero, suc, ◌+◌, ◌-◌, Bytes, List, [], ◌∷◌, ◌++◌, ◌==◌, length, All-append, Bool-cases,
  Option-cases, List-cases, inl, inr,
}
use mini_dht.Key.Bits.{key_size}
use mini_dht.Contact.{
  EndpointProto, TcpEndpoint, endpoint_eq, endpoint_to_proto, endpoint_to_string,
}
use mini_dht.Bucket.{
  Entry, Scan, done, past_end, no_fuel, remove_scan, remove_contact, random_key_in_bucket,
}
use mini_dht.Bucket.Multimap
use mini_dht.Db.KeyValue.{replace}
use mini_dht.Db.MultiKey.{DataItemHeader, find_titled}
use mini_dht.Node.State.{Env, Node, Result, ok, fault, undefined, out_of_fuel, ◌>>=◌, draw_token}
use mini_dht.Node.Handle.{handle_disconnect}
use mini_dht.Node.Iterate.{iterative_find_node}
use mini_dht.Node.Keeps.{noted, Keeps-trans, send_ping_key-Keeps}
use mini_dht.Node.Periodic.{
  is_stale, remaining_ttl, forget_contact, refresh_contacts, fill_buckets, is_over, revisit,
}
use mini_dht.Node.Thread.{Phase, contacts, buckets, snapshot, records, waiting, go_to, segment}
use mini_dht.Node.Known.{
  Keyed, IsKnown, EndsKnown, IsKnown-Keeps, then_known, iterative_store-EndsKnown,
  iterative_find_node-EndsKnown,
}

module _ (P : Bytes → Type 0) where
  -- What a scan of the contact list leaves.
  abbrev LeavesKeyed : Scan → Type 0
  LeavesKeyed (done es) = Keyed P es
  LeavesKeyed past_end = Unit
  LeavesKeyed no_fuel = Unit

  moved_over :
      (before : List Entry) (e : Entry) → Keyed P before → P e.1.key → Keyed P (before ++ e ∷ [])
  moved_over before e a p = All-append (λ f. P f.1.key) before (e ∷ []) a (p, tt)

  remove_scan-LeavesKeyed :
      (fuel : ℕ) (ep : EndpointProto) (before es : List Entry)
      → Keyed P before
      → Keyed P es
      → LeavesKeyed (remove_scan fuel ep before es)
  unfolding remove_scan
  remove_scan-LeavesKeyed fuel ep before [] a b = a
  remove_scan-LeavesKeyed zero ep before (e ∷ es) a b = elim (Bool-cases (endpoint_eq e.1.ep ep)) [
    | inl hit ↦ rw hit tt
    | inr miss ↦
        rw miss
          (remove_scan-LeavesKeyed zero ep (before ++ e ∷ []) es (moved_over before e a b.0) b.1)
  ]
  remove_scan-LeavesKeyed (suc fuel) ep before (e ∷ es) a b =
      elim (Bool-cases (endpoint_eq e.1.ep ep)) [
        | inl hit ↦ elim (List-cases (before ++ es)) [
          | inl empty ↦ rw (hit, empty) tt
          | inr (first, rest, left) ↦
              let c : Keyed P (first ∷ rest) =
                rw left at (All-append (λ f. P f.1.key) before es a b.1) in
              rw (hit, left) (remove_scan-LeavesKeyed fuel ep (first ∷ []) rest (c.0, tt) c.1)
        ]
        | inr miss ↦ rw miss (
            remove_scan-LeavesKeyed (suc fuel) ep (before ++ e ∷ []) es (moved_over before e a b.0)
              b.1)
      ]

  module _ (id : Bytes) where
    left_known :
        (r : Scan) (n : Node)
        → LeavesKeyed r
        → IsKnown P id n
        → EndsKnown P id (elim r [
          | done es ↦ ok (record n { contact_list = record n.contact_list { entries = es } })
          | past_end ↦ fault undefined
          | no_fuel ↦ fault out_of_fuel
        ])
    left_known (done es) n a h = record { contacts = a; same_id = h.same_id }
    left_known past_end n a h = tt
    left_known no_fuel n a h = tt

    pub handle_disconnect-EndsKnown :
        (ep : TcpEndpoint) (n : Node) → IsKnown P id n → EndsKnown P id (handle_disconnect ep n)
    unfolding handle_disconnect remove_contact
    handle_disconnect-EndsKnown ep n h =
        left_known (remove_contact (endpoint_to_proto ep) n.contact_list) n
          (remove_scan-LeavesKeyed (length n.contact_list.entries) (endpoint_to_proto ep) []
            n.contact_list.entries tt h.contacts)
          h

    module _ (env : Env) (now : ℕ) where
      forget_contact-IsKnown :
          (e : Entry) (es : List Entry) (n : Node)
          → Keyed P es
          → IsKnown P id n
          → IsKnown P id (forget_contact env now e es n)
      unfolding forget_contact draw_token
      forget_contact-IsKnown e es n a h =
          let (t, n') = draw_token env n in
          let k =
            IsKnown-Keeps P
              (Keeps-trans (noted n.map_ping_ttl n.map_store_check_val _ n)
                (send_ping_key-Keeps env now e.1.key t n'))
              h in
          record { contacts = a; same_id = k.same_id }

      refresh_contacts-EndsKnown :
          (fuel : ℕ) (before es : List Entry) (n : Node)
          → Keyed P before
          → Keyed P es
          → IsKnown P id n
          → EndsKnown P id (refresh_contacts env now fuel before es n)
      unfolding refresh_contacts
      refresh_contacts-EndsKnown fuel before [] n a b h = h
      refresh_contacts-EndsKnown zero before (e ∷ es) n a b h =
          let over = moved_over before e a b.0 in
          elim (Bool-cases (e.0 == key_size)) [
            | inl own ↦ rw own (refresh_contacts-EndsKnown zero (before ++ e ∷ []) es n over b.1 h)
            | inr other ↦ elim (Bool-cases (is_stale now e.1)) [
              | inl stale ↦ rw (other, stale, refresh_contacts) tt
              | inr fresh ↦
                  elim (Option-cases (replace e.1.key (endpoint_to_string e.1.ep) n.db_backup)) [
                    | inl broken ↦ rw (other, fresh, broken, refresh_contacts) tt
                    | inr (db, kept) ↦
                        rw (other, fresh, kept, refresh_contacts)
                          (refresh_contacts-EndsKnown zero (before ++ e ∷ []) es
                            (record n { db_backup = db }) over b.1
                            (record { contacts = h.contacts; same_id = h.same_id }))
                  ]
            ]
          ]
      refresh_contacts-EndsKnown (suc fuel) before (e ∷ es) n a b h =
          let over = moved_over before e a b.0 in
          elim (Bool-cases (e.0 == key_size)) [
            | inl own ↦
                rw own (refresh_contacts-EndsKnown (suc fuel) (before ++ e ∷ []) es n over b.1 h)
            | inr other ↦ elim (Bool-cases (is_stale now e.1)) [
              | inl stale ↦ elim (List-cases (before ++ es)) [
                | inl empty ↦ rw (other, stale, empty, refresh_contacts) tt
                | inr (first, rest, left) ↦
                    let both : Keyed P (before ++ es) =
                      All-append (λ f. P f.1.key) before es a b.1 in
                    let c : Keyed P (first ∷ rest) = rw left at both in
                    rw (other, stale, left, refresh_contacts)
                      (refresh_contacts-EndsKnown fuel (first ∷ []) rest
                        (forget_contact env now e (before ++ es) n) (c.0, tt) c.1
                        (forget_contact-IsKnown e (before ++ es) n both h))
              ]
              | inr fresh ↦
                  elim (Option-cases (replace e.1.key (endpoint_to_string e.1.ep) n.db_backup)) [
                    | inl broken ↦ rw (other, fresh, broken, refresh_contacts) tt
                    | inr (db, kept) ↦
                        rw (other, fresh, kept, refresh_contacts)
                          (refresh_contacts-EndsKnown (suc fuel) (before ++ e ∷ []) es
                            (record n { db_backup = db }) over b.1
                            (record { contacts = h.contacts; same_id = h.same_id }))
                  ]
            ]
          ]

      fill_buckets-EndsKnown :
          (left i : ℕ) (n : Node) → IsKnown P id n → EndsKnown P id (fill_buckets env now left i n)
      unfolding fill_buckets
      fill_buckets-EndsKnown zero i n h = h
      fill_buckets-EndsKnown (suc left) i n h =
          let skey = random_key_in_bucket env.random n.drawn i n.contact_list in
          let n' : Node = record n { drawn = n.drawn + (key_size - i) } in
          elim (Bool-cases (Multimap.count i n.contact_list.entries == 0)) [
            | inl empty ↦ rw empty (
                then_known P (iterative_find_node env now skey n')
                  (λ m. fill_buckets env now left (suc i) m)
                  (iterative_find_node-EndsKnown P id env now skey n'
                    (record { contacts = h.contacts; same_id = h.same_id }))
                  (λ m. fill_buckets-EndsKnown left (suc i) m))
            | inr filled ↦ rw filled (fill_buckets-EndsKnown left (suc i) n h)
          ]

      revisit-EndsKnown :
          (check_time : ℕ) (hd : DataItemHeader) (n : Node)
          → IsKnown P id n
          → EndsKnown P id (revisit env now check_time hd n)
      unfolding revisit
      revisit-EndsKnown check_time hd n h = elim (Bool-cases (is_over check_time hd)) [
        | inl over ↦ rw over (record { contacts = h.contacts; same_id = h.same_id })
        | inr valid ↦ elim (Option-cases (find_titled hd.key hd.title n.db_storage)) [
          | inl missing ↦ rw (valid, missing, revisit) tt
          | inr (item, found) ↦
              rw (valid, found, revisit)
                (iterative_store-EndsKnown P id env now hd.key
                  (record item { ttl = remaining_ttl check_time hd.time item.ttl }) n h)
        ]
      ]

      -- The same of a segment.
      abbrev pub MovesKnown : Result (Phase × Node) → Type 0
      MovesKnown (ok (q, t)) = IsKnown P id t
      MovesKnown (fault e) = Unit

      gone_to : (p : Phase) (r : Result Node) → EndsKnown P id r → MovesKnown (r >>= go_to p)
      unfolding go_to
      gone_to p (ok n) h = h
      gone_to p (fault e) h = tt

      pub segment-MovesKnown :
          (p : Phase) (n : Node) → IsKnown P id n → MovesKnown (segment env now p n)
      unfolding segment
      segment-MovesKnown contacts n h = gone_to buckets _ (
          refresh_contacts-EndsKnown (length n.contact_list.entries) [] n.contact_list.entries n tt
            h.contacts h)
      segment-MovesKnown buckets n h =
          gone_to snapshot _ (fill_buckets-EndsKnown (key_size - 1) 0 n h)
      segment-MovesKnown snapshot n h = h
      segment-MovesKnown (records check_time []) n h = record {
        contacts = h.contacts;
        same_id = h.same_id;
      }
      segment-MovesKnown (records check_time (hd ∷ hs)) n h =
          gone_to (records check_time hs) _ (revisit-EndsKnown check_time hd n h)
      segment-MovesKnown (waiting at) n h = h
