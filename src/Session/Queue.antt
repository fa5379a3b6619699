-- ===== src/Session/Queue.antt =====
-- The messages that a session sends (Sources/miniDHT_session.h): first in, first out.
use mathlib.Core.Path.{subst}
use mathlib.Core.List.{append_assoc, append-nil}
use mini_dht.Base.{
  ℕ, ◌-◌, Bool, true, false, List, [], ◌∷◌, ◌++◌, Option, none, some, Bytes, if◌then◌else◌, ◌≡◌,
  refl, sym, ◌∙◌, ap, inl, inr, Bool-cases, List-cases, Option-cases,
}
use mini_dht.Base.Int.{decrement, is_not_positive}
use mini_dht.Contact.{TcpEndpoint}
use mini_dht.Session.Message.{Message, header_length, decode_header}
use mini_dht.Session.Framing.{fill}
use mini_dht.Node.State.{Result, ok, fault}
use mini_dht.Session.State.{
  Session, new_session, connect_to, release, start_as, start, handle_connect, register, refuse,
  accept_as, accept_header, deliver, is_idle, handle_read_header, handle_read_body, write_next,
  handle_write,
}
use mini_dht.Session.Steps.{
  Step, delivered, connected, header_read, body_read, write_done, Reach, here, next,
}
use mini_dht.Session.Lifetime.{register_table}
use mini_dht.Session.Safety.{IsBegun, outgoing, incoming}

-- What the session was given, in order: what it has written, and what waits.
abbrev pub all_sent : Session → List Message
all_sent s = s.written ++ s.write_msgs

-- A result whose state was given these messages.
abbrev HasSent : List Message → Result Session → Type 0
HasSent ms (ok t) = all_sent t ≡ ms
HasSent ms (fault e) = Unit

-- A session whose operation has ended, with the operations that are left and the message it reads.
abbrev pub ended : (c h b w : ℕ) → Message → Session → Session
ended c h b w m s = record s {
  connecting = c;
  reading_header = h;
  reading_body = b;
  writing = w;
  ref_count = decrement s.ref_count;
  read_msg = m;
}

all_sent-release : (s : Session) → all_sent (release s) ≡ all_sent s
unfolding release
all_sent-release s = elim (Bool-cases (is_not_positive (decrement s.ref_count))) [
  | inl last ↦ rw last refl
  | inr more ↦ rw more refl
]

all_sent-refuse : (s : Session) → all_sent (refuse s) ≡ all_sent s
unfolding refuse
all_sent-refuse s = all_sent-release (record s { disconnected = s.disconnected ++ s.ep ∷ [] })

all_sent-register : (s : Session) → all_sent (register s) ≡ all_sent s
all_sent-register s = let (table, e) = register_table s in ap all_sent e

all_sent-accept_as :
    (out : Bool) (remote : Option TcpEndpoint) (s : Session)
    → all_sent (accept_as out remote s) ≡ all_sent s
unfolding accept_as
all_sent-accept_as true remote s = all_sent-register s
all_sent-accept_as false none s = all_sent-refuse s
all_sent-accept_as false (some r) s = all_sent-register (record s {
  ep = record { address_text = r.address_text; port_number = s.read_msg.listen_port };
})

start_as-HasSent :
    (out : Bool) (remote : Option TcpEndpoint) (s : Session)
    → HasSent (all_sent s) (start_as out remote s)
unfolding start_as
start_as-HasSent true remote s = refl
start_as-HasSent false none s = tt
start_as-HasSent false (some ep) s = refl

handle_connect-HasSent :
    (error : Bool) (remote : Option TcpEndpoint) (s : Session)
    → HasSent (all_sent s) (handle_connect error remote s)
unfolding handle_connect start
handle_connect-HasSent true remote s =
    all_sent-release
      (ended (s.connecting - 1) s.reading_header s.reading_body s.writing s.read_msg s)
handle_connect-HasSent false remote s =
    start_as-HasSent s.connect remote
      (ended (s.connecting - 1) s.reading_header s.reading_body s.writing s.read_msg s)

decoded-HasSent :
    (good : Bool) (remote : Option TcpEndpoint) (s : Session)
    → HasSent (all_sent s) (if good then ok (accept_header remote s) else ok (refuse s))
unfolding accept_header
decoded-HasSent true remote s = all_sent-accept_as s.connect remote s
decoded-HasSent false remote s = all_sent-refuse s

handle_read_header-HasSent :
    (error : Bool) (bytes : Bytes) (remote : Option TcpEndpoint) (s : Session)
    → HasSent (all_sent s) (handle_read_header error bytes remote s)
unfolding handle_read_header
handle_read_header-HasSent true bytes remote s =
    all_sent-refuse
      (ended s.connecting (s.reading_header - 1) s.reading_body s.writing s.read_msg s)
handle_read_header-HasSent false bytes remote s = elim (Option-cases (fill 0 bytes s.read_msg)) [
  | inl no_room ↦ rw (no_room, handle_read_header) tt
  | inr (m, filled) ↦ elim (Option-cases (decode_header m)) [
    | inl short ↦ rw (filled, short, handle_read_header) tt
    | inr ((good, m'), read) ↦
        rw (filled, read, handle_read_header)
          (decoded-HasSent good remote
            (ended s.connecting (s.reading_header - 1) s.reading_body s.writing m' s))
  ]
]

handle_read_body-HasSent :
    (error throws : Bool) (bytes : Bytes) (s : Session)
    → HasSent (all_sent s) (handle_read_body error throws bytes s)
unfolding handle_read_body
handle_read_body-HasSent true throws bytes s =
    all_sent-release
      (ended s.connecting s.reading_header (s.reading_body - 1) s.writing s.read_msg s)
handle_read_body-HasSent false throws bytes s =
    elim (Option-cases (fill header_length bytes s.read_msg)) [
      | inl no_room ↦ rw (no_room, handle_read_body) tt
      | inr (m, filled) ↦ elim (Bool-cases throws) [
        | inl thrown ↦ rw (filled, thrown, handle_read_body) tt
        | inr quiet ↦ rw (filled, quiet, handle_read_body) refl
      ]
    ]

all_sent-write_next : (ms : List Message) (s : Session) → all_sent (write_next ms s) ≡ all_sent s
unfolding write_next
all_sent-write_next [] s = refl
all_sent-write_next (m ∷ ms) s = refl

handle_write-HasSent : (error : Bool) (s : Session) → HasSent (all_sent s) (handle_write error s)
unfolding handle_write
handle_write-HasSent true s =
    all_sent-release
      (ended s.connecting s.reading_header s.reading_body (s.writing - 1) s.read_msg s)
handle_write-HasSent false s = elim (List-cases s.write_msgs) [
  | inl e ↦ rw (e, handle_write) tt
  | inr (m, ms, e) ↦
      rw (e, handle_write)
        (all_sent-write_next ms
            (record (ended s.connecting s.reading_header s.reading_body (s.writing - 1) s.read_msg
              s) { write_msgs = ms; written = s.written ++ m ∷ [] })
          ∙ append_assoc s.written (m ∷ []) ms)
]

all_sent-deliver : (m : Message) (s : Session) → all_sent (deliver m s) ≡ all_sent s ++ m ∷ []
unfolding deliver
all_sent-deliver m s = elim (Bool-cases (is_idle s.write_msgs)) [
  | inl idle ↦ rw (idle, deliver) (sym (append_assoc s.written s.write_msgs (m ∷ [])))
  | inr busy ↦ rw (busy, deliver) (sym (append_assoc s.written s.write_msgs (m ∷ [])))
]

-- The messages that were delivered, in order.
unfoldable pub step_deliveries : {s t : Session} → Step s t → List Message
step_deliveries (delivered m s there) = m ∷ []
step_deliveries (connected error remote s t begun e) = []
step_deliveries (header_read error bytes remote s t begun size e) = []
step_deliveries (body_read error throws bytes s t begun size e) = []
step_deliveries (write_done error s t begun e) = []

unfoldable pub deliveries : {s t : Session} → Reach s t → List Message
unfolding step_deliveries
deliveries here = []
deliveries (next r st) = deliveries r ++ step_deliveries st

ended_with :
    (ms : List Message) (r : Result Session) (t : Session)
    → r ≡ ok t
    → HasSent ms r
    → all_sent t ≡ ms ++ []
ended_with ms r t e h = subst (HasSent ms) e h ∙ sym (append-nil ms)

all_sent-Step : {s t : Session} (st : Step s t) → all_sent t ≡ all_sent s ++ step_deliveries st
unfolding step_deliveries
all_sent-Step (delivered m s there) = all_sent-deliver m s
all_sent-Step (connected error remote s t begun e) =
    ended_with (all_sent s) _ t e (handle_connect-HasSent error remote s)
all_sent-Step (header_read error bytes remote s t begun size e) =
    ended_with (all_sent s) _ t e (handle_read_header-HasSent error bytes remote s)
all_sent-Step (body_read error throws bytes s t begun size e) =
    ended_with (all_sent s) _ t e (handle_read_body-HasSent error throws bytes s)
all_sent-Step (write_done error s t begun e) =
    ended_with (all_sent s) _ t e (handle_write-HasSent error s)

all_sent-Reach : {s t : Session} (r : Reach s t) → all_sent t ≡ all_sent s ++ deliveries r
unfolding deliveries
all_sent-Reach {s = s} here = sym (append-nil (all_sent s))
all_sent-Reach {s = s} (next r st) =
    all_sent-Step st
    ∙ ap (λ (z : List Message). z ++ step_deliveries st) (all_sent-Reach r)
    ∙ append_assoc (all_sent s) (deliveries r) (step_deliveries st)

IsBegun-empty : {s : Session} → IsBegun s → all_sent s ≡ []
unfolding new_session
IsBegun-empty (outgoing junk this table ep) = unfold connect_to in refl
IsBegun-empty (incoming junk this table remote s e) =
    subst (HasSent []) e
      (unfold start in start_as-HasSent false remote (new_session junk this table))

-- In every run of a session that was connected or started, what it has written with what still
-- waits is what was delivered to it, in order: the queue is first in, first out, and no step loses
-- a message, adds one or writes one twice.
pub deliveries_in_order :
    {s t : Session} → IsBegun s → (r : Reach s t) → t.written ++ t.write_msgs ≡ deliveries r
deliveries_in_order b r =
    all_sent-Reach r ∙ ap (λ (z : List Message). z ++ deliveries r) (IsBegun-empty b)
