-- ===== src/Session/Safety.antt =====
-- The life of a session (Sources/miniDHT_session.h): every step keeps it safe.
use mini_dht.Base.{ℕ, suc, ◌<◌, true, false, Option, Map, ◌≡◌, refl, ap, arith, inl, inr}
use mathlib.Core.Path.{subst}
use mini_dht.Base.Int.{increment}
use mini_dht.Contact.{EndpointProto, TcpEndpoint}
use mini_dht.Session.Message.{empty_message, fresh, packet_size}
use mini_dht.Session.Framing.Packing.{length-fresh}
use mini_dht.Session.Framing.Stream.{IsReader}
use mini_dht.Node.State.{Result, ok}
use mini_dht.Session.State.{Session, new_session, start, connect_to}
use mini_dht.Session.Steps.{
  Step, delivered, connected, header_read, body_read, write_done, Reach, here, next, IsQuiet,
  IsLive, IsSafe,
}
use mini_dht.Session.Lifetime.{IsBetween}
use mini_dht.Session.Reads.{
  EndsSafe, start_as-EndsSafe, handle_connect-EndsSafe, handle_read_header-EndsSafe,
  handle_read_body-EndsSafe,
}
use mini_dht.Session.Writes.{deliver-IsLive, handle_write-EndsSafe}

-- A session with an operation pending was not deleted.
pending-IsLive : (n : ℕ) (s : Session) → 0 < n → (IsQuiet s → n ≡ 0) → IsSafe s → IsLive s
pending-IsLive n s begun quiet (inl (gone, q)) = absurd (omega (arith, quiet q))
pending-IsLive n s begun quiet (inr l) = l

ended-IsSafe : (r : Result Session) (t : Session) → r ≡ ok t → EndsSafe r → IsSafe t
ended-IsSafe r t e h = subst EndsSafe e h

Step-IsSafe : {s t : Session} → Step s t → IsSafe s → IsSafe t
Step-IsSafe (delivered m s there) (inl (gone, q)) = absurd (cc)
Step-IsSafe (delivered m s there) (inr l) = inr (deliver-IsLive m s l)
Step-IsSafe (connected error remote s t begun e) h = ended-IsSafe _ t e (
    handle_connect-EndsSafe error remote s begun
      (pending-IsLive s.connecting s begun (λ q. q.no_connect) h))
Step-IsSafe (header_read error bytes remote s t begun size e) h = ended-IsSafe _ t e (
    handle_read_header-EndsSafe error bytes remote s begun size
      (pending-IsLive s.reading_header s begun (λ q. q.no_header) h))
Step-IsSafe (body_read error throws bytes s t begun size e) h = ended-IsSafe _ t e (
    handle_read_body-EndsSafe error throws bytes s begun size
      (pending-IsLive s.reading_body s begun (λ q. q.no_body) h))
Step-IsSafe (write_done error s t begun e) h =
    ended-IsSafe _ t e
      (handle_write-EndsSafe error s begun (pending-IsLive s.writing s begun (λ q. q.no_write) h))

pub Reach-IsSafe : {s t : Session} → IsSafe s → Reach s t → IsSafe t
Reach-IsSafe h here = h
Reach-IsSafe h (next r st) = Step-IsSafe st (Reach-IsSafe h r)

-- A session that was made, and then connected or started.
pub data IsBegun : Session → Type 0 where
  outgoing :
      (junk : ℕ → ℕ) (this : ℕ) (table : Map EndpointProto ℕ) (ep : TcpEndpoint)
      → IsBegun (connect_to ep (new_session junk this table))
  incoming :
      (junk : ℕ → ℕ) (this : ℕ) (table : Map EndpointProto ℕ) (remote : Option TcpEndpoint)
      (s : Session)
      → start remote (new_session junk this table) ≡ ok s
      → IsBegun s

new_session-IsBetween :
    (junk : ℕ → ℕ) (this : ℕ) (table : Map EndpointProto ℕ)
    → IsBetween (new_session junk this table)
unfolding new_session empty_message
new_session-IsBetween junk this table = record {
  kept = refl;
  writer_failed = 0;
  references = 1;
  counted = refl;
  balance = refl;
  no_connect = refl;
  no_header = refl;
  no_body = refl;
  one_writer = omega arith;
  idle = λ p. refl;
  busy = λ m ms p. absurd (cc);
  reader = record {
    held = fresh junk packet_size 0;
    buffered = refl;
    sized = length-fresh junk packet_size 0;
  };
}

connect_to-IsLive : (ep : TcpEndpoint) (s : Session) → IsBetween s → IsLive (connect_to ep s)
unfolding connect_to
connect_to-IsLive ep s t = record {
  kept = t.kept;
  reader_failed = 0;
  writer_failed = t.writer_failed;
  references = suc t.references;
  counted = ap increment t.counted;
  balance = omega (arith, t.balance, t.no_connect, t.no_header, t.no_body);
  one_reader = omega (arith, t.no_connect, t.no_header, t.no_body);
  one_writer = t.one_writer;
  one_failure = omega (arith, t.one_writer);
  idle = t.idle;
  busy = t.busy;
  reader = t.reader;
  room = λ p. absurd (omega (arith, t.no_body));
}

IsBegun-IsSafe : {s : Session} → IsBegun s → IsSafe s
IsBegun-IsSafe (outgoing junk this table ep) =
    inr (connect_to-IsLive ep _ (new_session-IsBetween junk this table))
IsBegun-IsSafe (incoming junk this table remote s e) =
    ended-IsSafe _ s e
      (unfold start in start_as-EndsSafe _ remote _ (new_session-IsBetween junk this table))

-- In every run of a session that was connected or started, in which messages are delivered to it
-- as long as it is there and each operation that was begun calls its handler at some time with or
-- without an error, a session that was deleted has no operation pending: no handler is called on
-- it.
pub Reach-IsQuiet : {s t : Session} → IsBegun s → Reach s t → t.deleted ≡ true → IsQuiet t
Reach-IsQuiet b r gone = elim (Reach-IsSafe (IsBegun-IsSafe b) r) [
  | inl (e, q) ↦ q
  | inr l ↦ absurd (cc)
]

-- In every run of a session that was connected or started, in which no callback throws, as long as
-- it is not deleted, `ref_count_` is one more than the operations pending less those that failed;
-- one connection or read is pending or has failed, and a write is pending or has failed just when
-- messages wait; at most one has failed; and a body that is read fits the buffer.
pub Reach-IsLive : {s t : Session} → IsBegun s → Reach s t → t.deleted ≡ false → IsLive t
Reach-IsLive b r there = elim (Reach-IsSafe (IsBegun-IsSafe b) r) [
  | inl (e, q) ↦ absurd (cc)
  | inr l ↦ l
]

-- A session that writes is there.
pub writing-IsLive : {s t : Session} → IsBegun s → Reach s t → 0 < t.writing → IsLive t
writing-IsLive {t = t} b r begun =
    pending-IsLive t.writing t begun (λ q. q.no_write) (Reach-IsSafe (IsBegun-IsSafe b) r)

-- A session that waits for a header has a buffer for it.
pub waiting-IsReader :
    {s t : Session} → IsBegun s → Reach s t → 0 < t.reading_header → IsReader t.read_msg
waiting-IsReader {t = t} b r begun =
    (pending-IsLive t.reading_header t begun (λ q. q.no_header)
      (Reach-IsSafe (IsBegun-IsSafe b) r)).reader

pub header-IsLive : {s t : Session} → IsBegun s → Reach s t → 0 < t.reading_header → IsLive t
header-IsLive {t = t} b r begun =
    pending-IsLive t.reading_header t begun (λ q. q.no_header) (Reach-IsSafe (IsBegun-IsSafe b) r)
