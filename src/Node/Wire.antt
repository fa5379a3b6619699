-- ===== src/Node/Wire.antt =====
-- Sources/miniDHT.cpp: `send_MESSAGE` from the end point that was resolved on, with the message that
-- protobuf serializes and the packet that is delivered to a session, and `handle_receive` with the
-- packet that a session hands on.
use mathlib.Core.List.{append_assoc, append-nil}
use mini_dht.Base.{
  ℕ, ◌≤◌, ◌<◌, true, [], ◌++◌, Option, none, some, Bytes, ltb, length, length-append, take, ◌≡◌,
  ◌⊎◌, refl, sym, ◌∙◌, ap, arith, inl, inr, Bool-cases, Option-cases,
}
use mini_dht.Base.Maps.{find}
use mini_dht.Base.Slices.{drop, take-append, drop-append}
use mini_dht.Contact.{TcpEndpoint, MessageProto, endpoint_lt, endpoint_to_proto}
use mini_dht.Session.Message.{Message, header_length, max_body_length, body, pack}
use mini_dht.Session.Framing.Packing.{packed, pack_iff}
use mini_dht.Session.State.{Session}
use mini_dht.Session.Transport.{Transport, on_session, open_session, send_packet}
use mini_dht.Node.State.{Env, Node, Result, ok, fault, undefined}
use mini_dht.Node.Handle.{handle_receive}

-- `SerializeToOstream`, and the message after `ParseFromIstream`.
pub record Protobuf : Type 0 where
  pub serialize : MessageProto → Bytes
  pub parse : Bytes → MessageProto

-- `handle_receive` of a packet.
unfoldable pub receive_packet : Protobuf → Env → ℕ → TcpEndpoint → Message → Node → Result Node
receive_packet pb env now ep p n = handle_receive env now ep (pb.parse (body p)) n

module _ (junk : ℕ → ℕ) (pb : Protobuf) where
  -- `port` is `listen_port_`; a message that is copied past the end of the buffer is undefined.
  unfoldable pub post : ℕ → TcpEndpoint → MessageProto → Transport → Result Transport
  post port uep m t = elim (pack junk port (pb.serialize m)) [
    | none ↦ fault undefined
    | some p ↦ send_packet junk uep p t
  ]

  -- A message that fits makes a packet that holds it.
  pub carried :
      (port : ℕ) (m : MessageProto)
      → pb.parse (pb.serialize m) ≡ m
      → port < 65536
      → length (pb.serialize m) ≤ max_body_length
      → (p : Message) × (pack junk port (pb.serialize m) ≡ some p) × (pb.parse (body p) ≡ m)
  unfolding body
  carried port m parses small fits =
      let payload = pb.serialize m in
      let (p, q, fp, fq, e) = packed junk port payload small fits in
      let skipped : drop header_length (p ++ (q ++ payload)) ≡ payload =
        ap (drop header_length) (sym (append_assoc p q payload))
        ∙ drop-append header_length (p ++ q) payload
            (omega (arith, length-append p q, fp.wide, fq.wide)) in
      let whole : take (length payload) payload ≡ payload =
        ap (take (length payload)) (sym (append-nil payload))
        ∙ take-append (length payload) payload [] refl in
      (
        record {
          buffer = some (p ++ (q ++ payload));
          body_length = length payload;
          listen_port = port;
        },
        e,
        ap pb.parse (ap (take (length payload)) skipped ∙ whole) ∙ parses,
      )

-- A pointer to a session that is gone.
abbrev pub Gone : Option Session → Type 0
Gone none = Unit
Gone (some s) = s.deleted ≡ true

-- What the table has for an end point is such a pointer.
abbrev pub Dangling : Option ℕ → Transport → Type 0
Dangling none t = ⊥
Dangling (some i) t = Gone (find ltb i t.sessions)

module _ (junk : ℕ → ℕ) where
  send_packet_outcomes :
      (uep : TcpEndpoint) (p : Message) (t : Transport)
      → ((send_packet junk uep p t ≡ fault undefined)
          × Dangling (find endpoint_lt (endpoint_to_proto uep) t.table) t)
        ⊎ ((u : Transport) × (send_packet junk uep p t ≡ ok u)
            × ¬ (Dangling (find endpoint_lt (endpoint_to_proto uep) t.table) t))
  unfolding send_packet on_session
  send_packet_outcomes uep p t =
      elim (Option-cases (find endpoint_lt (endpoint_to_proto uep) t.table)) [
        | inl unknown ↦ rw (unknown, send_packet) (inr (open_session junk uep p t, refl, λ d. d))
        | inr (i, known) ↦ elim (Option-cases (find ltb i t.sessions)) [
          | inl lost ↦ rw (known, lost, send_packet, on_session) (inl (refl, tt))
          | inr (s, there) ↦ elim (Bool-cases s.deleted) [
            | inl over ↦ rw (known, there, over, send_packet, on_session) (inl (refl, refl))
            | inr live ↦ rw (known, there, live, send_packet, on_session) (inr (_, refl, λ d. cc))
          ]
        ]
      ]

  -- From the end point that was resolved on, `send_MESSAGE` does one of two things. It is
  -- undefined, and the serialized message is longer than `max_body_length` or the table has a
  -- pointer to a session that is gone for the end point; or it ends without an exception, and
  -- neither is so.
  pub post_outcomes :
      (pb : Protobuf) (port : ℕ) (uep : TcpEndpoint) (m : MessageProto) (t : Transport)
      → port < 65536
      → ((post junk pb port uep m t ≡ fault undefined)
          × ((max_body_length < length (pb.serialize m))
              ⊎ Dangling (find endpoint_lt (endpoint_to_proto uep) t.table) t))
        ⊎ ((u : Transport) × (post junk pb port uep m t ≡ ok u)
            × (length (pb.serialize m) ≤ max_body_length)
            × ¬ (Dangling (find endpoint_lt (endpoint_to_proto uep) t.table) t))
  unfolding post
  post_outcomes pb port uep m t small =
      elim (Bool-cases (ltb max_body_length (length (pb.serialize m)))) [
        | inl long ↦
            let past : pack junk port (pb.serialize m) ≡ none =
              (pack_iff junk port (pb.serialize m) small).1 (ground arith) in
            rw (past, post) (inl (refl, inl (ground arith)))
        | inr short ↦
            let (p, q, fp, fq, e) = packed junk port (pb.serialize m) small (ground arith) in
            let packet : Message = record {
              buffer = some (p ++ (q ++ pb.serialize m));
              body_length = length (pb.serialize m);
              listen_port = port;
            } in
            rw (e, post)
              (elim (send_packet_outcomes uep packet t) [
                | inl (lost, dangling) ↦ inl (lost, inr dangling)
                | inr (u, sent, live) ↦ inr (u, sent, ground arith, live)
              ])
      ]
