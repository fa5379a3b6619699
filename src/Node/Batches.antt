-- ===== src/Node/Batches.antt =====
-- `reply_FIND_NODE` of Sources/miniDHT.cpp: how the contacts are divided among messages.
use mathlib.Core.List.{append-nil, append_assoc}
use mini_dht.Base.{
  ℕ, suc, ◌≤◌, ◌<◌, Bool, true, false, List, [], ◌∷◌, ◌++◌, map, some, Bytes, str_eq, leb, ◌||◌,
  length, length-append, ◌≡◌, refl, sym, ◌∙◌, ap, All, Bool-cases, inl, inr, arith,
}
use mini_dht.Key.Bits.{alpha}
use mini_dht.Contact.{
  EndpointProto, TcpEndpoint, ContactProto, MessageProto, reply_find_node, endpoint_to_proto,
}
use mini_dht.Bucket.{Entry, find_key}
use mini_dht.Node.State.{Env, Node}
use mini_dht.Node.Send.{
  new_message, send_to, send_message, at_end, reply_batches, reply_find_node_to,
}

abbrev pub concat : List (List ContactProto) → List ContactProto
concat [] = []
concat (b ∷ bs) = b ++ concat bs

-- The messages, one for each batch, as they stand in the outbox.
abbrev pub posted :
    EndpointProto → MessageProto → List (List ContactProto) → List (EndpointProto × MessageProto)
posted to m = map (λ b. (to, record m { contact_list = b }))

-- No batch is empty or larger than ALPHA.
abbrev pub IsBatched : List (List ContactProto) → Type 0
IsBatched = All (λ b. (0 < length b) × (length b ≤ alpha))

not_full : (i : ℕ) (b : Bool) → leb alpha i || b ≡ false → (i < alpha) × (b ≡ false)
not_full i b h = ground arith

module _ (env : Env) (m : MessageProto) (c : ContactProto) (uep : TcpEndpoint) where
  -- A message that has a route is put in the outbox.
  sent_message :
      (b : List ContactProto) (n : Node)
      → str_eq m.to_id n.id ≡ false
      → find_key m.to_id n.contact_list ≡ some c
      → env.resolve c.ep ≡ some uep
      → send_message env (record m { contact_list = b }) n
        ≡ some (record n {
          outbox = n.outbox ++ (endpoint_to_proto uep, record m { contact_list = b }) ∷ [];
        })
  unfolding send_message send_to
  sent_message b n other route address = rw (other, route, address, send_message, send_to) refl

  reply_batches_lem :
      (es : List Entry) (held : List ContactProto) (n : Node)
      → str_eq m.to_id n.id ≡ false
      → find_key m.to_id n.contact_list ≡ some c
      → env.resolve c.ep ≡ some uep
      → length held < alpha
      → (at_end es ≡ true → held ≡ [])
      → (batches : List (List ContactProto)) × (reply_batches env m es held n
          ≡ record n { outbox = n.outbox ++ posted (endpoint_to_proto uep) m batches })
        × IsBatched batches
        × (concat batches ≡ held ++ map (λ e. e.1) es)
  unfolding reply_batches at_end
  reply_batches_lem [] held n other route address few last = (
    [],
    ap (λ (o : List (EndpointProto × MessageProto)). record n { outbox = o })
        (sym (append-nil n.outbox)),
    tt,
    sym (append-nil held ∙ last refl),
  )
  reply_batches_lem (x ∷ es) held n other route address few last =
      let size : length (held ++ x.1 ∷ []) ≡ suc (length held) =
        omega (arith, length-append held (x.1 ∷ [])) in
      elim (Bool-cases (leb alpha (length (held ++ x.1 ∷ [])) || at_end es)) [
        | inl full ↦
            let first : EndpointProto × MessageProto =
              (endpoint_to_proto uep, record m { contact_list = held ++ x.1 ∷ [] }) in
            let n' : Node = record n { outbox = n.outbox ++ first ∷ [] } in
            let (bs, e, b, all) =
              reply_batches_lem es [] n' other route address (omega arith) (λ z. refl) in
            (
              (held ++ x.1 ∷ []) ∷ bs,
              rw (full, sent_message (held ++ x.1 ∷ []) n other route address)
                  (e
                    ∙ ap (λ (o : List (EndpointProto × MessageProto)). record n { outbox = o })
                        (append_assoc n.outbox (first ∷ []) (posted (endpoint_to_proto uep) m bs))),
              ((omega (arith, size), omega (arith, size)), b),
              append_assoc held (x.1 ∷ []) (concat bs)
                  ∙ ap (λ (z : List ContactProto). held ++ x.1 ∷ z) all,
            )
        | inr more ↦
            let (room, later) = not_full (length (held ++ x.1 ∷ [])) (at_end es) more in
            let (bs, e, b, all) =
              reply_batches_lem es (held ++ x.1 ∷ []) n other route address room
                (λ z. ground arith) in
            (bs, rw more e, b, all ∙ append_assoc held (x.1 ∷ []) (map (λ e'. e'.1) es))
      ]

-- If the node that asks is another one that the node knows, with an end point that resolves, the
-- answer of `reply_FIND_NODE` is a run of messages to that end point, none of them empty or with
-- more than ALPHA contacts, that together hold each contact of the list once and in its order.
-- Nothing else of the state changes.
pub reply_find_node_batches :
    (env : Env) (k : Bytes) (t : ℕ) (n : Node) (c : ContactProto) (uep : TcpEndpoint)
    → str_eq k n.id ≡ false
    → find_key k n.contact_list ≡ some c
    → env.resolve c.ep ≡ some uep
    → (batches : List (List ContactProto)) × (reply_find_node_to env k t n ≡ record n {
      outbox =
          n.outbox
          ++ posted
              (endpoint_to_proto uep)
              (record (new_message reply_find_node t n) { to_id = k })
              batches;
    })
      × IsBatched batches
      × (concat batches ≡ map (λ e. e.1) n.contact_list.entries)
unfolding reply_find_node_to
reply_find_node_batches env k t n c uep other route address =
    reply_batches_lem env (record (new_message reply_find_node t n) { to_id = k }) c uep
      n.contact_list.entries [] n other route address (omega arith) (λ z. refl)
