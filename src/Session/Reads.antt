-- ===== src/Session/Reads.antt =====
-- The handlers of a session that read (Sources/miniDHT_session.h): each ends in a safe state.
use mini_dht.Base.{
  ℕ, ◌+◌, ◌-◌, ◌≤◌, ◌<◌, Bool, true, false, [], ◌∷◌, ◌++◌, Option, none, some, Bytes, length,
  if◌then◌else◌, ◌≡◌, refl, ◌∙◌, ap, arith, inl, inr, take, Bool-cases,
}
use mini_dht.Base.Slices.{put_at_fits}
use mini_dht.Contact.{TcpEndpoint}
use mini_dht.Session.Message.{Message, header_length, packet_size}
use mini_dht.Session.Header.{decode_header_bounds}
use mini_dht.Session.Framing.{fill}
use mini_dht.Session.Framing.Stream.{IsReader}
use mini_dht.Node.State.{Result, ok, fault, exception}
use mini_dht.Session.State.{
  Session, start_as, start, handle_connect, refuse, accept_header, handle_read_header,
  handle_read_body,
}
use mini_dht.Session.Steps.{IsLive, IsSafe}
use mini_dht.Session.Lifetime.{
  IsBetween, ended-IsBetween, await_header-IsLive, release_reader-IsSafe, updated-IsBetween,
  refuse-IsSafe, accept_header-IsSafe,
}

-- A method ended in a safe state, or with an exception of the library.
abbrev pub EndsSafe : Result Session → Type 0
EndsSafe (ok t) = IsSafe t
EndsSafe (fault exception) = Unit
EndsSafe (fault e) = ⊥

-- A read into the buffer of a session that fits it.
filled-IsReader :
    (i : ℕ) (bytes : Bytes) (m : Message)
    → IsReader m
    → i + length bytes ≤ packet_size
    → (b : Bytes) × (fill i bytes m ≡ some (record m { buffer = some b }))
      × (length b ≡ packet_size)
unfolding fill
filled-IsReader i bytes m r fits =
    let (post, put, same) = put_at_fits i bytes r.held (omega (arith, r.sized)) in
    let full : Bytes = take i r.held ++ (bytes ++ post) in
    (
      full,
      ap (λ (z : Option Bytes). fill i bytes (record m { buffer = z })) r.buffered
          ∙ rw (put, fill) refl,
      same ∙ r.sized,
    )

pub start_as-EndsSafe :
    (outgoing : Bool) (remote : Option TcpEndpoint) (s : Session)
    → IsBetween s
    → EndsSafe (start_as outgoing remote s)
unfolding start_as
start_as-EndsSafe true remote s t = inr (await_header-IsLive s t)
start_as-EndsSafe false none s t = tt
start_as-EndsSafe false (some ep) s t = inr (
    await_header-IsLive (record s { ep = ep })
      (updated-IsBetween ep s.read_msg s.table s.got s.disconnected s t.reader t))

pub handle_connect-EndsSafe :
    (error : Bool) (remote : Option TcpEndpoint) (s : Session)
    → 0 < s.connecting
    → IsLive s
    → EndsSafe (handle_connect error remote s)
unfolding handle_connect start
handle_connect-EndsSafe true remote s begun l =
    release_reader-IsSafe _
      (ended-IsBetween (s.connecting - 1) s.reading_header s.reading_body s (omega arith) l)
handle_connect-EndsSafe false remote s begun l =
    start_as-EndsSafe s.connect remote _
      (ended-IsBetween (s.connecting - 1) s.reading_header s.reading_body s (omega arith) l)

pub handle_read_body-EndsSafe :
    (error throws : Bool) (bytes : Bytes) (s : Session)
    → 0 < s.reading_body
    → length bytes ≡ s.read_msg.body_length
    → IsLive s
    → EndsSafe (handle_read_body error throws bytes s)
unfolding handle_read_body
handle_read_body-EndsSafe true throws bytes s begun e l =
    release_reader-IsSafe _
      (ended-IsBetween s.connecting s.reading_header (s.reading_body - 1) s (omega arith) l)
handle_read_body-EndsSafe false throws bytes s begun e l =
    let (b, filled, size) =
      filled-IsReader header_length bytes s.read_msg l.reader (omega (arith, e, l.room begun)) in
    let m : Message = record s.read_msg { buffer = some b } in
    let between =
      ended-IsBetween s.connecting s.reading_header (s.reading_body - 1) s (omega arith) l in
    elim (Bool-cases throws) [
      | inl thrown ↦ rw (filled, thrown, handle_read_body) tt
      | inr quiet ↦
          rw (filled, quiet, handle_read_body)
            (inr (
              await_header-IsLive _ (
                updated-IsBetween s.ep m s.table (s.got ++ (s.ep, m) ∷ []) s.disconnected _
                  (record { held = b; buffered = refl; sized = size }) between)))
    ]

-- What a header that was decoded leads to.
decoded-EndsSafe :
    (good : Bool) (remote : Option TcpEndpoint) (s : Session)
    → IsBetween s
    → header_length + s.read_msg.body_length ≤ packet_size
    → EndsSafe (if good then ok (accept_header remote s) else ok (refuse s))
decoded-EndsSafe true remote s t room = accept_header-IsSafe remote s t room
decoded-EndsSafe false remote s t room = refuse-IsSafe s t

pub handle_read_header-EndsSafe :
    (error : Bool) (bytes : Bytes) (remote : Option TcpEndpoint) (s : Session)
    → 0 < s.reading_header
    → length bytes ≡ header_length
    → IsLive s
    → EndsSafe (handle_read_header error bytes remote s)
unfolding handle_read_header
handle_read_header-EndsSafe true bytes remote s begun e l =
    refuse-IsSafe _
      (ended-IsBetween s.connecting (s.reading_header - 1) s.reading_body s (omega arith) l)
handle_read_header-EndsSafe false bytes remote s begun e l =
    let (b, filled, size) = filled-IsReader 0 bytes s.read_msg l.reader (omega (arith, e)) in
    let (good, m, decoded, room, port, kept, refused) =
      decode_header_bounds (record s.read_msg { buffer = some b }) b refl (omega (arith, size)) in
    let between =
      ended-IsBetween s.connecting (s.reading_header - 1) s.reading_body s (omega arith) l in
    rw (filled, decoded, handle_read_header)
      (decoded-EndsSafe good remote _
        (updated-IsBetween s.ep m s.table s.got s.disconnected _
          (record { held = b; buffered = kept; sized = size }) between)
        room)
