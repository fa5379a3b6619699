-- ===== src/Node/Pings.antt =====
-- A ping and its answer (Sources/miniDHT.cpp).
use mini_dht.Base.{
  ℕ, ◌≤◌, true, none, some, ltb, ◌≡◌, ◌≢◌, refl, Option-cases, inl, inr, arith, ◌∙◌, ap,
}
use mini_dht.Base.Maps.{
  insert_or_assign, find, erase, ltb-IsStrictOrder, find-insert_or_assign_self, find-erase_self,
}
use mini_dht.Contact.{EndpointProto, ContactProto, MessageProto, endpoint_to_proto}
use mini_dht.Bucket.{Order, find_key, to_time_t, add_contact}
use mini_dht.Bucket.Lookup.{find_key-add_contact_self}
use mini_dht.Node.State.{Env, Node, ok}
use mini_dht.Node.Send.{send_to, send_ping_to}
use mini_dht.Node.Handle.{in_time, handle_reply_ping}

in_time_later : (sent now : ℕ) → sent ≤ now → in_time sent now ≡ true
unfolding in_time
in_time_later sent now later = ground arith

-- The answer to a ping that is known.
answered :
    (order : Order) (sent now : ℕ) (m : MessageProto) (n : Node)
    → sent ≤ now
    → find ltb m.token n.map_ping_ttl ≡ some sent
    → m.from_id ≢ n.contact_list.local_key
    → (n' : Node) × (handle_reply_ping order now m n ≡ ok n')
      × ((c : ContactProto) × (find_key m.from_id n'.contact_list ≡ some c)
          × (c.ep ≡ endpoint_to_proto n.sender_endpoint)
          × (c.time ≡ some (to_time_t now)))
      × (find ltb m.token n'.map_ping_ttl ≡ none)
unfolding handle_reply_ping
answered order sent now m n later known other =
    let ep = endpoint_to_proto n.sender_endpoint in
    let (c, found, _, at, stamped) =
      find_key-add_contact_self order now m.from_id ep n.contact_list other in
    rw (known, in_time_later sent now later, handle_reply_ping)
      (
        record n {
          contact_list = add_contact order now m.from_id ep n.contact_list;
          map_ping_ttl = erase ltb m.token n.map_ping_ttl;
        },
        refl,
        (c, found, at, stamped),
        find-erase_self ltb ltb-IsStrictOrder m.token n.map_ping_ttl,
      )

module _ (env : Env) where
  sent_ping :
      (sent : ℕ) (epp : EndpointProto) (t : ℕ) (n : Node)
      → ((send_ping_to env sent epp t n).map_ping_ttl ≡ insert_or_assign ltb t sent n.map_ping_ttl)
        × ((send_ping_to env sent epp t n).contact_list ≡ n.contact_list)
        × ((send_ping_to env sent epp t n).sender_endpoint ≡ n.sender_endpoint)
  unfolding send_ping_to send_to
  sent_ping sent epp t n = elim (Option-cases (env.resolve epp)) [
    | inl missing ↦ rw (missing, send_to) (refl, refl, refl)
    | inr (uep, found) ↦ rw (found, send_to) (refl, refl, refl)
  ]

  -- A ping is answered in time whatever time has passed: after a ping at `sent`, a REPLY_PING with
  -- its token at any later time makes the sender, if it is not the node itself, a contact with the
  -- end point that the message came from, and the token is forgotten.
  pub handle_reply_ping-send_ping_to :
      (sent now : ℕ) (epp : EndpointProto) (t : ℕ) (m : MessageProto) (n : Node)
      → sent ≤ now
      → m.token ≡ t
      → m.from_id ≢ n.contact_list.local_key
      → (n' : Node) × (handle_reply_ping env.order now m (send_ping_to env sent epp t n) ≡ ok n')
        × ((c : ContactProto) × (find_key m.from_id n'.contact_list ≡ some c)
            × (c.ep ≡ endpoint_to_proto n.sender_endpoint)
            × (c.time ≡ some (to_time_t now)))
        × (find ltb t n'.map_ping_ttl ≡ none)
  handle_reply_ping-send_ping_to sent now epp t m n later same other =
      let (pings, contacts, sender) = sent_ping sent epp t n in
      let (n', e, (c, found, at, stamped), gone) =
        answered env.order sent now m (send_ping_to env sent epp t n) later
          (rw (pings, same)
            (find-insert_or_assign_self ltb ltb-IsStrictOrder t sent n.map_ping_ttl))
          (rw contacts other) in
      (n', e, (c, found, at ∙ ap endpoint_to_proto sender, stamped), rw same at gone)
