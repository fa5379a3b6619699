-- ===== src/Node/Keeps.antt =====
-- What the sends of Sources/miniDHT.cpp leave alone: all but the messages, their tokens and times.
use mini_dht.Base.{
  ℕ, List, [], ◌∷◌, ◌++◌, none, some, Bytes, Map, str_eq, ltb, leb, ◌||◌, length, filter_by, ◌≡◌,
  refl, sym, ◌∙◌, All, All-append, Bool-cases, Option-cases, inl, inr, ◌⊎◌,
}
use mini_dht.Base.Maps.{insert_or_assign}
use mini_dht.Key.Bits.{alpha}
use mini_dht.Contact.{EndpointProto, DataItemProto, ContactProto, MessageProto, reply_find_node}
use mini_dht.Bucket.{Entry, find_key}
use mini_dht.Db.MultiKey.{find}
use mini_dht.Node.State.{Env, Node, draw_token}
use mini_dht.Node.Send.{
  new_message, caught, send_to, send_message, send_ping_to, send_ping_key, send_store_to,
  send_find_node_to, send_find_value_to, reply_ping_to, reply_store_to, at_end, reply_batches,
  reply_find_node_to, no_items, reply_find_value_to, contains,
}
use mini_dht.Node.Iterate.{for_each}
use mini_dht.Node.Handle.{ping_contacts}

-- Every message in the outbox names `id` as its sender.
abbrev pub Signed : Bytes → List (EndpointProto × MessageProto) → Type 0
Signed id = All (λ e. e.1.from_id ≡ id)

pub record Keeps (n n' : Node) : Type 0 where
  pub same_id : n'.id ≡ n.id
  pub same_max : n'.max_records ≡ n.max_records
  pub same_contacts : n'.contact_list ≡ n.contact_list
  pub same_searches : n'.map_search ≡ n.map_search
  pub same_store : n'.db_storage ≡ n.db_storage
  pub signed : Signed n.id n.outbox → Signed n.id n'.outbox

pub Keeps-self : (n : Node) → Keeps n n
Keeps-self n = record {
  same_id = refl;
  same_max = refl;
  same_contacts = refl;
  same_searches = refl;
  same_store = refl;
  signed = λ a. a;
}

pub Keeps-trans : {a b c : Node} → Keeps a b → Keeps b c → Keeps a c
Keeps-trans {a} {b} {c} p q = record {
  same_id = q.same_id ∙ p.same_id;
  same_max = q.same_max ∙ p.same_max;
  same_contacts = q.same_contacts ∙ p.same_contacts;
  same_searches = q.same_searches ∙ p.same_searches;
  same_store = q.same_store ∙ p.same_store;
  signed = λ s. rw (sym p.same_id) (q.signed (rw p.same_id (p.signed s)));
}

pub noted :
    (pings stores : Map ℕ ℕ) (drawn : ℕ) (n : Node)
    → Keeps n (record n { map_ping_ttl = pings; map_store_check_val = stores; drawn = drawn })
noted pings stores drawn n = record {
  same_id = refl;
  same_max = refl;
  same_contacts = refl;
  same_searches = refl;
  same_store = refl;
  signed = λ a. a;
}

pub for_each-Keeps :
    (send : Bytes → Node → Node)
    → ((k : Bytes) (n : Node) → Keeps n (send k n))
    → (ks : List Bytes) (n : Node) → Keeps n (for_each send ks n)
unfolding for_each
for_each-Keeps send keeps [] n = Keeps-self n
for_each-Keeps send keeps (k ∷ ks) n =
    Keeps-trans (keeps k n) (for_each-Keeps send keeps ks (send k n))

module _ (env : Env) where
  send_to-Keeps :
      (epp : EndpointProto) (m : MessageProto) (n : Node)
      → m.from_id ≡ n.id
      → Keeps n (send_to env epp m n)
  unfolding send_to
  send_to-Keeps epp m n e = elim (Option-cases (env.resolve epp)) [
    | inl missing ↦ rw (missing, send_to) (Keeps-self n)
    | inr (uep, found) ↦
        rw (found, send_to)
          (record {
            same_id = refl;
            same_max = refl;
            same_contacts = refl;
            same_searches = refl;
            same_store = refl;
            signed = λ s. All-append (λ x. x.1.from_id ≡ n.id) n.outbox _ s (e, tt);
          })
  ]

  -- What `send_message` comes to, an exception or a state that keeps the rest.
  send_message-Keeps :
      (m : MessageProto) (n : Node)
      → m.from_id ≡ n.id
      → (send_message env m n ≡ none)
        ⊎ ((n' : Node) × (send_message env m n ≡ some n') × Keeps n n')
  unfolding send_message
  send_message-Keeps m n e = elim (Bool-cases (str_eq m.to_id n.id)) [
    | inl self ↦ rw self (inr (n, refl, Keeps-self n))
    | inr other ↦ elim (Option-cases (find_key m.to_id n.contact_list)) [
      | inl missing ↦ rw (other, missing, send_message) (inl refl)
      | inr (c, found) ↦
          rw (other, found, send_message)
            (inr (send_to env c.ep m n, refl, send_to-Keeps c.ep m n e))
    ]
  ]

  caught-Keeps :
      (m : MessageProto) (n : Node) → m.from_id ≡ n.id → Keeps n (caught n (send_message env m n))
  caught-Keeps m n e = elim (send_message-Keeps m n e) [
    | inl thrown ↦ rw thrown (Keeps-self n)
    | inr (n', sent, k) ↦ rw sent k
  ]

  pub send_ping_to-Keeps :
      (now : ℕ) (epp : EndpointProto) (t : ℕ) (n : Node) → Keeps n (send_ping_to env now epp t n)
  unfolding send_ping_to new_message
  send_ping_to-Keeps now epp t n =
      Keeps-trans
        (noted (insert_or_assign ltb t now n.map_ping_ttl) n.map_store_check_val n.drawn n)
        (send_to-Keeps epp _ _ refl)

  pub send_ping_key-Keeps :
      (now : ℕ) (k : Bytes) (t : ℕ) (n : Node) → Keeps n (send_ping_key env now k t n)
  unfolding send_ping_key new_message
  send_ping_key-Keeps now k t n =
      Keeps-trans
        (noted (insert_or_assign ltb t now n.map_ping_ttl) n.map_store_check_val n.drawn n)
        (caught-Keeps _ _ refl)

  pub reply_ping_to-Keeps : (k : Bytes) (t : ℕ) (n : Node) → Keeps n (reply_ping_to env k t n)
  unfolding reply_ping_to new_message
  reply_ping_to-Keeps k t n = caught-Keeps _ n refl

  pub reply_store_to-Keeps :
      (k : Bytes) (t : ℕ) (d : DataItemProto) (n : Node) → Keeps n (reply_store_to env k t d n)
  unfolding reply_store_to new_message
  reply_store_to-Keeps k t d n = caught-Keeps _ n refl

  pub send_store_to-Keeps :
      (to query : Bytes) (d : DataItemProto) (t : ℕ) (n : Node)
      → Keeps n (send_store_to env to query d t n)
  unfolding send_store_to new_message
  send_store_to-Keeps to query d t n =
      Keeps-trans
        (noted n.map_ping_ttl (insert_or_assign ltb t (length d.blob) n.map_store_check_val) n.drawn
          n)
        (caught-Keeps _ _ refl)

  pub send_find_node_to-Keeps :
      (to query : Bytes) (t : ℕ) (n : Node) → Keeps n (send_find_node_to env to query t n)
  unfolding send_find_node_to new_message
  send_find_node_to-Keeps to query t n = caught-Keeps _ n refl

  pub send_find_value_to-Keeps :
      (to query : Bytes) (t : ℕ) (hint : Bytes) (n : Node)
      → Keeps n (send_find_value_to env to query t hint n)
  unfolding send_find_value_to new_message
  send_find_value_to-Keeps to query t hint n = caught-Keeps _ n refl

  pub reply_find_value_to-Keeps :
      (k : Bytes) (t : ℕ) (hint : Bytes) (n : Node) → Keeps n (reply_find_value_to env k t hint n)
  unfolding reply_find_value_to new_message
  reply_find_value_to-Keeps k t hint n =
      elim (Bool-cases (no_items (filter_by (λ d. contains d.title hint) (find k n.db_storage)))) [
        | inl empty ↦ rw empty (Keeps-self n)
        | inr some_left ↦ rw some_left (caught-Keeps _ n refl)
      ]

  reply_batches-Keeps :
      (m : MessageProto) (es : List Entry) (held : List ContactProto) (n : Node)
      → m.from_id ≡ n.id
      → Keeps n (reply_batches env m es held n)
  unfolding reply_batches
  reply_batches-Keeps m [] held n e = Keeps-self n
  reply_batches-Keeps m (x ∷ es) held n e =
      elim (Bool-cases (leb alpha (length (held ++ x.1 ∷ [])) || at_end es)) [
        | inl full ↦ elim (send_message-Keeps (record m { contact_list = held ++ x.1 ∷ [] }) n e) [
          | inl thrown ↦ rw (full, thrown) (Keeps-self n)
          | inr (n', sent, k) ↦
              rw (full, sent) (Keeps-trans k (reply_batches-Keeps m es [] n' (e ∙ sym k.same_id)))
        ]
        | inr more ↦ rw more (reply_batches-Keeps m es (held ++ x.1 ∷ []) n e)
      ]

  pub reply_find_node_to-Keeps :
      (k : Bytes) (t : ℕ) (n : Node) → Keeps n (reply_find_node_to env k t n)
  unfolding reply_find_node_to new_message
  reply_find_node_to-Keeps k t n =
      reply_batches-Keeps (record (new_message reply_find_node t n) { to_id = k })
        n.contact_list.entries [] n refl

  pub ping_contacts-Keeps :
      (now : ℕ) (cs : List ContactProto) (n : Node) → Keeps n (ping_contacts env now cs n)
  unfolding ping_contacts draw_token
  ping_contacts-Keeps now [] n = Keeps-self n
  ping_contacts-Keeps now (c ∷ cs) n =
      Keeps-trans (noted n.map_ping_ttl n.map_store_check_val _ n)
        (Keeps-trans (send_ping_key-Keeps now c.key _ _) (ping_contacts-Keeps now cs _))
