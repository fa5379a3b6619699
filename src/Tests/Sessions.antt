-- ===== src/Tests/Sessions.antt =====
-- The sessions.
use mini_dht.Base.{
  ℕ, ◌+◌, ◌-◌, ◌<◌, ◌≤◌, Bool, true, false, List, [], ◌∷◌, ◌++◌, none, some, Bytes, length, ◌≡◌,
  ◌≢◌, refl, arith, ◌↔◌, str_eq, str_lt,
}
use mini_dht.Base.Int.{pos, decrement}
use mini_dht.Base.Maps.{find}
use mini_dht.Contact.{endpoint_lt, endpoint_to_proto}
use mini_dht.Session.Message.{
  Message, header_length, max_body_length, packet_size, decode_header, fresh, pack,
}
use mini_dht.Session.Header.{decode_header_bounds}
use mini_dht.Session.Framing.Packing.{pack_iff}
use mini_dht.Node.State.{ok}
use mini_dht.Session.State.{
  Session, new_session, start_as, start, connect_to, await_header, deliver, is_idle, release,
  handle_connect, refuse, handle_read_header, handle_write,
}
use mini_dht.Session.Steps.{Reach, here, next, connected, delivered, header_read, IsQuiet, IsLive}
use mini_dht.Session.Safety.{IsBegun, outgoing, incoming, Reach-IsQuiet, Reach-IsLive}
use mini_dht.Session.Queue.{deliveries, deliveries_in_order}
use mini_dht.Session.Progress.{writes, HasDrained, Reach-HasDrained, handle_write_leaks}
use mini_dht.Session.Transport.{Transport, send_packets, HasOpened, send_packets-HasOpened}
use mini_dht.Session.Table.{entry, entry_dangles}
use mini_dht.Tests.Data.{home_tcp, away}

abbrev zeros : ℕ → ℕ
zeros i = 0

-- What `pack` makes of the payload "hi" on the port 4000.
abbrev packet : Message
packet = record {
  buffer = some (
      32 ∷ 32 ∷ 32 ∷ 32 ∷ 32 ∷ 32 ∷ 32 ∷ b'2' ∷ 32 ∷ 32 ∷ 32 ∷ 32 ∷ b'4' ∷ b'0' ∷ b'0' ∷ b'0' ∷ b'h'
      ∷ b'i' ∷ []);
  body_length = 2;
  listen_port = 4000;
}

abbrev payloads : List (ℕ × Bytes)
payloads = (4000, b'h' ∷ b'i' ∷ []) ∷ []

-- A session that connects, that is connected, that writes, and that has lost its reader.
abbrev opened : Session
opened = connect_to home_tcp (new_session zeros 1 [])

abbrev waiting : Session
waiting =
    await_header
      (record opened { connecting = opened.connecting - 1; ref_count = decrement opened.ref_count })

abbrev sending : Session
sending = deliver packet waiting

abbrev alone : Session
alone = refuse (record sending {
  reading_header = sending.reading_header - 1;
  ref_count = decrement sending.ref_count;
})

abbrev closed : Session
closed =
    release
      (record opened { connecting = opened.connecting - 1; ref_count = decrement opened.ref_count })

opened-IsBegun : IsBegun opened
opened-IsBegun = outgoing zeros 1 [] home_tcp

to_closed : Reach opened closed
unfolding connect_to new_session
to_closed =
    next here (connected true none opened closed (omega arith) (unfold handle_connect in refl))

to_waiting : Reach opened waiting
unfolding connect_to new_session
to_waiting = next here (
    connected false none opened waiting (omega arith)
      (unfold handle_connect start start_as in refl))

to_sending : Reach opened sending
to_sending = next to_waiting (delivered packet waiting (unfold connect_to new_session in refl))

to_alone : Reach opened alone
to_alone = next to_sending (
    header_read true (fresh zeros header_length 0) none sending alone
      (unfold deliver is_idle connect_to new_session in omega arith) (unfold fresh in refl)
      (unfold handle_read_header in refl))

Reach-IsQuiet_example : IsQuiet closed
Reach-IsQuiet_example =
    Reach-IsQuiet opened-IsBegun to_closed (unfold release connect_to new_session in refl)

Reach-IsLive_example : IsLive sending
Reach-IsLive_example =
    Reach-IsLive opened-IsBegun to_sending (unfold deliver is_idle connect_to new_session in refl)

deliveries_in_order_example : sending.written ++ sending.write_msgs ≡ deliveries to_sending
deliveries_in_order_example = deliveries_in_order opened-IsBegun to_sending

sending_writes : 0 < sending.writing
unfolding deliver is_idle connect_to new_session
sending_writes = omega arith

Reach-HasDrained_example :
    (u : Session) × (writes (length sending.write_msgs) sending ≡ ok u)
    × HasDrained (deliveries to_sending) u
Reach-HasDrained_example = Reach-HasDrained opened-IsBegun to_sending sending_writes

handle_write_leaks_example :
    (u : Session) × (handle_write false alone ≡ ok u)
    × (u.deleted ≡ false)
    × (u.ref_count ≡ pos 0)
    × IsQuiet u
    × ((next : Message)
        → (v : Session) × (handle_write true (deliver next u) ≡ ok v) × (v.deleted ≡ true))
handle_write_leaks_example =
    handle_write_leaks packet opened-IsBegun to_alone
      (unfold refuse release deliver is_idle connect_to new_session in omega arith)
      (unfold refuse release deliver is_idle connect_to new_session in refl)
      (unfold refuse release deliver is_idle connect_to new_session in refl)

decode_header_bounds_example :
    (good : Bool) × (m : Message) × (decode_header packet ≡ some (good, m))
    × (header_length + m.body_length ≤ packet_size)
    × (m.listen_port < 65536)
    × (m.buffer ≡ packet.buffer)
    × (good ≡ false → m.body_length ≡ 0)
decode_header_bounds_example = decode_header_bounds packet _ refl (omega arith)

pack_iff_example : (pack zeros 4000 (b'h' ∷ []) ≡ none) ↔ (max_body_length < 1)
pack_iff_example = pack_iff zeros 4000 (b'h' ∷ []) (omega arith)

-- The other end.
abbrev accepted : Session
accepted = await_header (record (new_session zeros 2 []) { ep = home_tcp })

-- A session that is in the table under an end point that is not its own any more.
abbrev moved : Session
moved = await_header (record (new_session zeros 2 ((away, 2) ∷ [])) { ep = home_tcp })

moved-IsBegun : IsBegun moved
moved-IsBegun =
    incoming zeros 2 ((away, 2) ∷ []) (some home_tcp) moved
      (unfold start start_as new_session in refl)

away_apart : away ≢ endpoint_to_proto home_tcp
unfolding endpoint_to_proto
away_apart e = ground (arith, e)

entry_dangles_example :
    (u : Session) × (handle_read_header true [] none moved ≡ ok u)
    × (u.deleted ≡ true)
    × (entry away u ≡ some moved.this)
entry_dangles_example =
    entry_dangles away [] none moved-IsBegun here (unfold new_session in omega arith)
      (unfold new_session in refl) (unfold new_session in away_apart)
      (unfold new_session find endpoint_lt str_eq str_lt in refl)

abbrev no_sessions : Transport
no_sessions = record { sessions = []; table = []; made = 0; accepting = 0 }

send_packets-HasOpened_example :
    (u : Transport) × (send_packets zeros home_tcp (packet ∷ packet ∷ []) no_sessions ≡ ok u)
    × HasOpened zeros home_tcp (packet ∷ packet ∷ []) no_sessions u
unfolding find
send_packets-HasOpened_example =
    send_packets-HasOpened zeros home_tcp (packet ∷ packet ∷ []) no_sessions refl
