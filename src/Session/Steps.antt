-- ===== src/Session/Steps.antt =====
-- The life of a session (Sources/miniDHT_session.h), and what holds in all of it.
use mini_dht.Base.{
  ℕ, ◌+◌, ◌≤◌, ◌<◌, Bool, true, false, List, [], ◌∷◌, Option, Bytes, length, ◌≡◌, ◌⊎◌,
}
use mini_dht.Base.Int.{pos}
use mini_dht.Contact.{TcpEndpoint}
use mini_dht.Session.Message.{Message, header_length, packet_size}
use mini_dht.Session.Framing.Stream.{IsReader}
use mini_dht.Node.State.{ok}
use mini_dht.Session.State.{
  Session, deliver, handle_connect, handle_read_header, handle_read_body, handle_write,
}

-- What may happen to a session: a message is delivered as long as it is there, and an operation
-- that was begun calls its handler, with the number of bytes that was asked for. A handler that an
-- exception leaves, such as one of a callback, makes no step.
pub data Step : Session → Session → Type 0 where
  delivered : (m : Message) (s : Session) → s.deleted ≡ false → Step s (deliver m s)
  connected :
      (error : Bool) (remote : Option TcpEndpoint) (s t : Session)
      → 0 < s.connecting
      → handle_connect error remote s ≡ ok t
      → Step s t
  header_read :
      (error : Bool) (bytes : Bytes) (remote : Option TcpEndpoint) (s t : Session)
      → 0 < s.reading_header
      → length bytes ≡ header_length
      → handle_read_header error bytes remote s ≡ ok t
      → Step s t
  body_read :
      (error throws : Bool) (bytes : Bytes) (s t : Session)
      → 0 < s.reading_body
      → length bytes ≡ s.read_msg.body_length
      → handle_read_body error throws bytes s ≡ ok t
      → Step s t
  write_done :
      (error : Bool) (s t : Session) → 0 < s.writing → handle_write error s ≡ ok t → Step s t

pub data Reach (s : Session) : Session → Type 0 where
  here : Reach s s
  next : {t u : Session} → Reach s t → Step t u → Reach s u

-- No operation is pending.
pub record IsQuiet (s : Session) : Type 0 where
  pub no_connect : s.connecting ≡ 0
  pub no_header : s.reading_header ≡ 0
  pub no_body : s.reading_body ≡ 0
  pub no_write : s.writing ≡ 0

-- A session that is not deleted: `ref_count_` is one more than the operations that are pending,
-- less those that failed; the reader is one operation or failed, and the writer is one operation
-- just when messages wait, or failed.
pub record IsLive (s : Session) : Type 0 where
  pub kept : s.deleted ≡ false
  pub reader_failed : ℕ
  pub writer_failed : ℕ
  pub references : ℕ
  pub counted : s.ref_count ≡ pos references
  pub balance :
      references + (reader_failed + writer_failed)
      ≡ 1 + (s.connecting + s.reading_header + s.reading_body + s.writing)
  pub one_reader : s.connecting + s.reading_header + s.reading_body + reader_failed ≡ 1
  pub one_writer : s.writing + writer_failed ≤ 1
  pub one_failure : reader_failed + writer_failed ≤ 1
  pub idle : s.write_msgs ≡ [] → s.writing + writer_failed ≡ 0
  pub busy :
      (m : Message) (ms : List Message) → s.write_msgs ≡ m ∷ ms → s.writing + writer_failed ≡ 1
  pub reader : IsReader s.read_msg
  pub room : 0 < s.reading_body → header_length + s.read_msg.body_length ≤ packet_size

-- A session that was deleted has no operation pending, so no handler is called on it.
abbrev pub IsSafe : Session → Type 0
IsSafe s = ((s.deleted ≡ true) × IsQuiet s) ⊎ IsLive s
