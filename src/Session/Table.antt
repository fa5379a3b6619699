-- ===== src/Session/Table.antt =====
-- The table of sessions, `map_ep_proto_session_` of Sources/miniDHT_session.h, which a session
-- changes as it goes.
use mathlib.Core.Path.{subst}
use mini_dht.Base.{
  ℕ, ◌-◌, ◌<◌, Bool, true, false, List, [], ◌∷◌, ◌++◌, Option, none, some, Bytes, if◌then◌else◌,
  ◌≡◌, ◌≢◌, refl, ◌∙◌, ap, arith, inl, inr, Bool-cases, List-cases, Option-cases, ◌==◌,
}
use mini_dht.Base.Int.{pos, decrement, is_not_positive}
use mini_dht.Base.Maps.{find, erase, find-erase_ne, find-insert_or_assign_ne}
use mini_dht.Contact.{EndpointProto, TcpEndpoint, endpoint_lt, endpoint_to_proto}
use mini_dht.Contact.Address.{endpoint_lt-IsStrictOrder}
use mini_dht.Session.Message.{Message, header_length, decode_header}
use mini_dht.Session.Framing.{fill}
use mini_dht.Node.State.{Result, ok, fault}
use mini_dht.Session.State.{
  Session, release, start_as, start, handle_connect, register, refuse, accept_as, accept_header,
  deliver, is_idle, handle_read_header, handle_read_body, write_next, handle_write,
}
use mini_dht.Session.Steps.{
  Step, delivered, connected, header_read, body_read, write_done, Reach, IsLive,
}
use mini_dht.Session.Release.{decrement_pos}
use mini_dht.Session.Queue.{ended}
use mini_dht.Session.Safety.{IsBegun, header-IsLive}

-- The session that stands for an end point.
abbrev pub entry : EndpointProto → Session → Option ℕ
entry k s = find endpoint_lt k s.table

-- A session that has the present end point `k` or the entry `e` under `k`.
abbrev HasEntry : EndpointProto → Option ℕ → Session → Type 0
HasEntry k e t = k ≢ endpoint_to_proto t.ep → entry k t ≡ e

abbrev EndsWithEntry : EndpointProto → Option ℕ → Result Session → Type 0
EndsWithEntry k e (ok t) = HasEntry k e t
EndsWithEntry k e (fault x) = Unit

-- All lemmas are about one key.
module _ (k : EndpointProto) where
  release-HasEntry : (s : Session) → HasEntry k (entry k s) (release s)
  unfolding release
  release-HasEntry s = elim (Bool-cases (is_not_positive (decrement s.ref_count))) [
    | inl last ↦
        rw last
          (find-erase_ne endpoint_lt endpoint_lt-IsStrictOrder k (endpoint_to_proto s.ep) s.table)
    | inr more ↦ rw more (λ apart. refl)
  ]

  refuse-HasEntry : (s : Session) → HasEntry k (entry k s) (refuse s)
  unfolding refuse
  refuse-HasEntry s = release-HasEntry (record s { disconnected = s.disconnected ++ s.ep ∷ [] })

  register-HasEntry : (s : Session) → HasEntry k (entry k s) (register s)
  unfolding register
  register-HasEntry s = elim (Option-cases (find endpoint_lt (endpoint_to_proto s.ep) s.table)) [
    | inl missing ↦
        rw (missing, register)
          (find-insert_or_assign_ne endpoint_lt endpoint_lt-IsStrictOrder k (endpoint_to_proto s.ep)
            s.this s.table)
    | inr (other, found) ↦ elim (Bool-cases (other == s.this)) [
      | inl self ↦ rw (found, self, register) (λ apart. refl)
      | inr another ↦
          rw (found, another, register)
            (λ apart.
              find-insert_or_assign_ne endpoint_lt endpoint_lt-IsStrictOrder k
                (endpoint_to_proto s.ep) s.this (erase endpoint_lt (endpoint_to_proto s.ep) s.table)
                apart
              ∙ find-erase_ne endpoint_lt endpoint_lt-IsStrictOrder k (endpoint_to_proto s.ep)
                  s.table apart)
    ]
  ]

  accept_as-HasEntry :
      (out : Bool) (remote : Option TcpEndpoint) (s : Session)
      → HasEntry k (entry k s) (accept_as out remote s)
  unfolding accept_as
  accept_as-HasEntry true remote s = register-HasEntry s
  accept_as-HasEntry false none s = refuse-HasEntry s
  accept_as-HasEntry false (some r) s = register-HasEntry (record s {
    ep = record { address_text = r.address_text; port_number = s.read_msg.listen_port };
  })

  decoded-HasEntry :
      (good : Bool) (remote : Option TcpEndpoint) (s : Session)
      → EndsWithEntry k (entry k s) (if good then ok (accept_header remote s) else ok (refuse s))
  unfolding accept_header
  decoded-HasEntry true remote s = accept_as-HasEntry s.connect remote s
  decoded-HasEntry false remote s = refuse-HasEntry s

  start_as-HasEntry :
      (out : Bool) (remote : Option TcpEndpoint) (s : Session)
      → EndsWithEntry k (entry k s) (start_as out remote s)
  unfolding start_as
  start_as-HasEntry true remote s = λ apart. refl
  start_as-HasEntry false none s = tt
  start_as-HasEntry false (some ep) s = λ apart. refl

  handle_read_header-HasEntry :
      (error : Bool) (bytes : Bytes) (remote : Option TcpEndpoint) (s : Session)
      → EndsWithEntry k (entry k s) (handle_read_header error bytes remote s)
  unfolding handle_read_header
  handle_read_header-HasEntry true bytes remote s =
      refuse-HasEntry
        (ended s.connecting (s.reading_header - 1) s.reading_body s.writing s.read_msg s)
  handle_read_header-HasEntry false bytes remote s = elim (Option-cases (fill 0 bytes s.read_msg)) [
    | inl no_room ↦ rw (no_room, handle_read_header) tt
    | inr (m, filled) ↦ elim (Option-cases (decode_header m)) [
      | inl short ↦ rw (filled, short, handle_read_header) tt
      | inr ((good, m'), read) ↦
          rw (filled, read, handle_read_header)
            (decoded-HasEntry good remote
              (ended s.connecting (s.reading_header - 1) s.reading_body s.writing m' s))
    ]
  ]

  handle_connect-HasEntry :
      (error : Bool) (remote : Option TcpEndpoint) (s : Session)
      → EndsWithEntry k (entry k s) (handle_connect error remote s)
  unfolding handle_connect start
  handle_connect-HasEntry true remote s =
      release-HasEntry
        (ended (s.connecting - 1) s.reading_header s.reading_body s.writing s.read_msg s)
  handle_connect-HasEntry false remote s =
      start_as-HasEntry s.connect remote
        (ended (s.connecting - 1) s.reading_header s.reading_body s.writing s.read_msg s)

  handle_read_body-HasEntry :
      (error throws : Bool) (bytes : Bytes) (s : Session)
      → EndsWithEntry k (entry k s) (handle_read_body error throws bytes s)
  unfolding handle_read_body
  handle_read_body-HasEntry true throws bytes s =
      release-HasEntry
        (ended s.connecting s.reading_header (s.reading_body - 1) s.writing s.read_msg s)
  handle_read_body-HasEntry false throws bytes s =
      elim (Option-cases (fill header_length bytes s.read_msg)) [
        | inl no_room ↦ rw (no_room, handle_read_body) tt
        | inr (m, filled) ↦ elim (Bool-cases throws) [
          | inl thrown ↦ rw (filled, thrown, handle_read_body) tt
          | inr quiet ↦ rw (filled, quiet, handle_read_body) (λ apart. refl)
        ]
      ]

  write_next-HasEntry : (ms : List Message) (s : Session) → HasEntry k (entry k s) (write_next ms s)
  unfolding write_next
  write_next-HasEntry [] s = λ apart. refl
  write_next-HasEntry (m ∷ ms) s = λ apart. refl

  handle_write-HasEntry :
      (error : Bool) (s : Session) → EndsWithEntry k (entry k s) (handle_write error s)
  unfolding handle_write
  handle_write-HasEntry true s =
      release-HasEntry
        (ended s.connecting s.reading_header s.reading_body (s.writing - 1) s.read_msg s)
  handle_write-HasEntry false s = elim (List-cases s.write_msgs) [
    | inl e ↦ rw (e, handle_write) tt
    | inr (m, ms, e) ↦
        rw (e, handle_write)
          (write_next-HasEntry ms
            (record (ended s.connecting s.reading_header s.reading_body (s.writing - 1) s.read_msg
              s) { write_msgs = ms; written = s.written ++ m ∷ [] }))
  ]

  deliver-HasEntry : (m : Message) (s : Session) → HasEntry k (entry k s) (deliver m s)
  unfolding deliver
  deliver-HasEntry m s = elim (Bool-cases (is_idle s.write_msgs)) [
    | inl idle ↦ rw (idle, deliver) (λ apart. refl)
    | inr busy ↦ rw (busy, deliver) (λ apart. refl)
  ]

  ends :
      (s t : Session) (r : Result Session)
      → r ≡ ok t
      → EndsWithEntry k (entry k s) r
      → HasEntry k (entry k s) t
  ends s t r e h = subst (EndsWithEntry k (entry k s)) e h

-- No step of a session changes the entry of the table of sessions under any end point but the one
-- that the session has after the step, whatever session that entry stands for.
pub entry-Step :
    (k : EndpointProto) {s t : Session}
    → Step s t
    → k ≢ endpoint_to_proto t.ep
    → entry k t ≡ entry k s
entry-Step k (delivered m s there) = deliver-HasEntry k m s
entry-Step k (connected error remote s t begun e) =
    ends k s t _ e (handle_connect-HasEntry k error remote s)
entry-Step k (header_read error bytes remote s t begun size e) =
    ends k s t _ e (handle_read_header-HasEntry k error bytes remote s)
entry-Step k (body_read error throws bytes s t begun size e) =
    ends k s t _ e (handle_read_body-HasEntry k error throws bytes s)
entry-Step k (write_done error s t begun e) = ends k s t _ e (handle_write-HasEntry k error s)

-- The count of a session whose only operation has failed.
two_references :
    (s : Session)
    → IsLive s
    → 0 < s.reading_header
    → s.write_msgs ≡ []
    → decrement (decrement s.ref_count) ≡ pos 0
two_references s l begun empty = decrement_pos (decrement s.ref_count) 0 (
    decrement_pos s.ref_count 1
      (l.counted ∙ ap pos (omega (arith, l.balance, l.one_reader, l.idle empty))))

-- In every run of a session that was connected or started, if it waits for a header, has nothing
-- to write, and stands in the table under an end point that is not its own any more, then an error
-- on the read deletes it and leaves that entry: the table keeps a pointer to a session that is
-- gone.
pub entry_dangles :
    (k : EndpointProto) (bytes : Bytes) (remote : Option TcpEndpoint) {s t : Session}
    → IsBegun s
    → Reach s t
    → 0 < t.reading_header
    → t.write_msgs ≡ []
    → k ≢ endpoint_to_proto t.ep
    → entry k t ≡ some t.this
    → (u : Session) × (handle_read_header true bytes remote t ≡ ok u)
      × (u.deleted ≡ true)
      × (entry k u ≡ some t.this)
unfolding handle_read_header refuse release
entry_dangles k bytes remote {t = t} b r begun empty apart there =
    let last = two_references t (header-IsLive b r begun) begun empty in
    (
      record t {
        reading_header = t.reading_header - 1;
        ref_count = pos 0;
        disconnected = t.disconnected ++ t.ep ∷ [];
        table = erase endpoint_lt (endpoint_to_proto t.ep) t.table;
        deleted = true;
      },
      rw (last, handle_read_header, refuse, release) refl,
      refl,
      find-erase_ne endpoint_lt endpoint_lt-IsStrictOrder k (endpoint_to_proto t.ep) t.table apart
          ∙ there,
    )
