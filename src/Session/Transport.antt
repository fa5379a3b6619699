-- ===== src/Session/Transport.antt =====
-- How a node makes and finds sessions (Sources/miniDHT.cpp): the second half of `send_MESSAGE`, and
-- the acceptor. `sessions` are those that were made, under the number that stands for `this`;
-- `table` is `map_ep_proto_session`, which they share.
use mini_dht.Base.{
  ℕ, suc, ◌+◌, Bool, List, [], ◌∷◌, Option, none, some, Map, ltb, if◌then◌else◌, length, ◌≡◌, refl,
  ◌∙◌, arith,
}
use mini_dht.Base.Maps.{insert_or_assign, find}
use mini_dht.Contact.{EndpointProto, TcpEndpoint, endpoint_lt, endpoint_to_proto}
use mini_dht.Session.Message.{Message}
use mini_dht.Node.State.{Result, ok, fault, undefined, ◌>>=◌}
use mini_dht.Session.State.{Session, new_session, connect_to, deliver, start}

pub record Transport : Type 0 where
  pub sessions : Map ℕ Session
  pub table : Map EndpointProto ℕ
  pub made : ℕ
  pub accepting : ℕ

-- A call of a method of a session through a pointer: undefined if the session is gone.
unfoldable pub on_session : ℕ → (Session → Result Session) → Transport → Result Transport
on_session i f t = elim (find ltb i t.sessions) [
  | none ↦ fault undefined
  | some s ↦
      if s.deleted
      then fault undefined
      else (f (record s { table = t.table }) >>= (λ s'.
          ok (record t { sessions = insert_or_assign ltb i s' t.sessions; table = s'.table })))
]

module _ (junk : ℕ → ℕ) where
  -- A session for a message to an end point that the table does not have.
  unfoldable pub open_session : TcpEndpoint → Message → Transport → Transport
  open_session uep m t = record t {
    sessions =
        insert_or_assign ltb t.made (deliver m (connect_to uep (new_session junk t.made t.table)))
          t.sessions;
    made = suc t.made;
  }

  -- `send_MESSAGE` with a packet and the end point that was resolved.
  unfoldable pub send_packet : TcpEndpoint → Message → Transport → Result Transport
  unfolding open_session on_session
  send_packet uep m t = elim (find endpoint_lt (endpoint_to_proto uep) t.table) [
    | none ↦ ok (open_session uep m t)
    | some i ↦ on_session i (λ s. ok (deliver m s)) t
  ]

  unfoldable pub send_packets : TcpEndpoint → List Message → Transport → Result Transport
  send_packets uep [] t = ok t
  send_packets uep (m ∷ ms) t = send_packet uep m t >>= send_packets uep ms

  unfoldable pub start_accept : Transport → Transport
  start_accept t = record t {
    sessions = insert_or_assign ltb t.made (new_session junk t.made t.table) t.sessions;
    made = suc t.made;
    accepting = t.made;
  }

  -- `handle_accept`; a session that was not started is not deleted either.
  unfoldable pub handle_accept : Bool → Option TcpEndpoint → Transport → Result Transport
  unfolding on_session start_accept
  handle_accept error remote t =
      if error
      then ok (start_accept t)
      else (on_session t.accepting (start remote) t >>= (λ t'. ok (start_accept t')))

  -- Sessions for messages, each made for one of them.
  abbrev opened :
      TcpEndpoint → List Message → ℕ → Map EndpointProto ℕ → Map ℕ Session → Map ℕ Session
  opened uep [] made table sessions = sessions
  opened uep (m ∷ ms) made table sessions = opened uep ms (suc made) table (
      insert_or_assign ltb made (deliver m (connect_to uep (new_session junk made table))) sessions)

  -- What a run of messages to an end point without a session leaves.
  pub record HasOpened (uep : TcpEndpoint) (ms : List Message) (t u : Transport) : Type 0 where
    pub one_each : u.made ≡ t.made + length ms
    pub same_table : u.table ≡ t.table
    pub connecting : u.sessions ≡ opened uep ms t.made t.table t.sessions

  -- As long as the table has no session for an end point, a run of messages to it opens a new
  -- connection for each: every one goes into a session of its own that connects, and the table
  -- stays as it was.
  pub send_packets-HasOpened :
      (uep : TcpEndpoint) (ms : List Message) (t : Transport)
      → find endpoint_lt (endpoint_to_proto uep) t.table ≡ none
      → (u : Transport) × (send_packets uep ms t ≡ ok u) × HasOpened uep ms t u
  unfolding send_packets send_packet
  send_packets-HasOpened uep [] t unknown =
      (t, refl, record { one_each = omega arith; same_table = refl; connecting = refl })
  send_packets-HasOpened uep (m ∷ ms) t unknown =
      let (u, sent, h) =
        send_packets-HasOpened uep ms (open_session uep m t) (unfold open_session in unknown) in
      (
        u,
        rw (unknown, send_packet) sent,
        record {
          one_each = h.one_each ∙ (unfold open_session in omega arith);
          same_table = h.same_table ∙ (unfold open_session in refl);
          connecting = h.connecting ∙ (unfold open_session in refl);
        },
      )
