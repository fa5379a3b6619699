-- ===== src/Session/Progress.antt =====
-- What `handle_write` of a session (Sources/miniDHT_session.h) leads to.
use mathlib.Core.List.{append_assoc, append-nil}
use mini_dht.Base.{
  ℕ, zero, suc, ◌+◌, ◌-◌, ◌<◌, true, false, List, [], ◌∷◌, ◌++◌, length, ◌≡◌, refl, sym, ◌∙◌, ap,
  arith,
}
use mini_dht.Base.Int.{pos, decrement}
use mini_dht.Session.Message.{Message}
use mini_dht.Node.State.{Result, ok, ◌>>=◌}
use mini_dht.Session.State.{Session, deliver, release, is_idle, write_next, handle_write}
use mini_dht.Session.Steps.{Reach, IsQuiet, IsLive}
use mini_dht.Session.Release.{decrement_pos}
use mini_dht.Session.Writes.{write_next-IsLive}
use mini_dht.Session.Safety.{IsBegun, writing-IsLive}
use mini_dht.Session.Queue.{deliveries, deliveries_in_order}

-- So many writes that succeed, one after the other.
unfoldable pub writes : ℕ → Session → Result Session
writes zero s = ok s
writes (suc n) s = handle_write false s >>= writes n

-- A write that succeeds, with the front of the queue.
handle_write_front :
    (m : Message) (ms : List Message) (s : Session)
    → s.write_msgs ≡ m ∷ ms
    → handle_write false s
      ≡ ok (
          write_next ms (record s {
            writing = s.writing - 1;
            ref_count = decrement s.ref_count;
            write_msgs = ms;
            written = s.written ++ m ∷ [];
          }))
unfolding handle_write
handle_write_front m ms s e = rw (e, handle_write) refl

-- What a run of writes has done.
pub record HasDrained (sent : List Message) (t : Session) : Type 0 where
  pub in_order : t.written ≡ sent
  pub none_left : t.write_msgs ≡ []
  pub no_write : t.writing ≡ 0

write_next_queue :
    (ms : List Message) (s : Session)
    → ((write_next ms s).write_msgs ≡ s.write_msgs) × ((write_next ms s).written ≡ s.written)
unfolding write_next
write_next_queue [] s = (refl, refl)
write_next_queue (m ∷ ms) s = (refl, refl)

write_next_awaits :
    (ms : List Message) (s : Session) → 0 < length ms → 0 < (write_next ms s).writing
unfolding write_next
write_next_awaits [] s p = absurd (omega arith)
write_next_awaits (m ∷ ms) s p = omega arith

writes-HasDrained :
    (ms : List Message) (s : Session)
    → s.write_msgs ≡ ms
    → IsLive s
    → (0 < length ms → 0 < s.writing)
    → (t : Session) × (writes (length ms) s ≡ ok t) × HasDrained (s.written ++ ms) t
unfolding writes
writes-HasDrained [] s e l awaited = (
  s,
  refl,
  record {
    in_order = sym (append-nil s.written);
    none_left = e;
    no_write = omega (arith, l.idle e);
  },
)
writes-HasDrained (m ∷ ms) s e l awaited =
    let begun : 0 < s.writing = awaited (omega arith) in
    let u = write_next ms (record s {
      writing = s.writing - 1;
      ref_count = decrement s.ref_count;
      write_msgs = ms;
      written = s.written ++ m ∷ [];
    }) in
    let (same, sent) = write_next_queue ms (record s {
      writing = s.writing - 1;
      ref_count = decrement s.ref_count;
      write_msgs = ms;
      written = s.written ++ m ∷ [];
    }) in
    let (t, run, d) =
      writes-HasDrained ms u same (write_next-IsLive ms (s.written ++ m ∷ []) s begun l)
        (write_next_awaits ms _) in
    (
      t,
      ap (λ (z : Result Session). z >>= writes (length ms)) (handle_write_front m ms s e) ∙ run,
      record {
        in_order =
            d.in_order
            ∙ ap (λ (z : List Message). z ++ ms) sent
            ∙ append_assoc s.written (m ∷ []) ms;
        none_left = d.none_left;
        no_write = d.no_write;
      },
    )

-- In every run of a session that was connected or started, if a write is pending, then as many
-- successful writes as messages wait end with the queue empty and no write pending, and what was
-- written is all that was delivered, in order.
pub Reach-HasDrained :
    {s t : Session}
    → IsBegun s
    → (r : Reach s t) → 0 < t.writing
    → (u : Session) × (writes (length t.write_msgs) t ≡ ok u) × HasDrained (deliveries r) u
Reach-HasDrained {t = t} b r begun =
    let l = writing-IsLive b r begun in
    let (u, run, d) = writes-HasDrained t.write_msgs t refl l (λ p. begun) in
    (
      u,
      run,
      record {
        in_order = d.in_order ∙ deliveries_in_order b r;
        none_left = d.none_left;
        no_write = d.no_write;
      },
    )

-- A message that is delivered to a session with no reference left, and whose write fails.
deleted_later :
    (next : Message) (u : Session)
    → u.write_msgs ≡ []
    → u.ref_count ≡ pos 0
    → (v : Session) × (handle_write true (deliver next u) ≡ ok v) × (v.deleted ≡ true)
unfolding deliver handle_write release is_idle
deleted_later next u empty none_left =
    let d = deliver next u in
    (
      release (record d { writing = d.writing - 1; ref_count = decrement d.ref_count }),
      refl,
      rw (empty, none_left, deliver, release) refl,
    )

-- In every run of a session that was connected or started, if nothing but the write of the only
-- message is pending, the reader having failed, then after that write succeeds the session is not
-- deleted although `ref_count_` is 0 and no operation is pending. It is deleted if a message is
-- delivered to it after that and the write of it fails.
pub handle_write_leaks :
    {s t : Session} (m : Message)
    → IsBegun s
    → Reach s t
    → 0 < t.writing
    → t.connecting + t.reading_header + t.reading_body ≡ 0
    → t.write_msgs ≡ m ∷ []
    → (u : Session) × (handle_write false t ≡ ok u)
      × (u.deleted ≡ false)
      × (u.ref_count ≡ pos 0)
      × IsQuiet u
      × ((next : Message)
          → (v : Session) × (handle_write true (deliver next u) ≡ ok v) × (v.deleted ≡ true))
unfolding write_next
handle_write_leaks {t = t} m b r begun gone one =
    let l = writing-IsLive b r begun in
    (
      record t {
        writing = t.writing - 1;
        ref_count = decrement t.ref_count;
        write_msgs = [];
        written = t.written ++ m ∷ [];
      },
      handle_write_front m [] t one,
      l.kept,
      decrement_pos t.ref_count 0
          (l.counted ∙ ap pos (omega (arith, l.balance, l.one_reader, l.one_writer))),
      record {
        no_connect = omega (arith, gone);
        no_header = omega (arith, gone);
        no_body = omega (arith, gone);
        no_write = omega (arith, l.one_writer);
      },
      λ next. deleted_later next _ refl (
          decrement_pos t.ref_count 0
            (l.counted ∙ ap pos (omega (arith, l.balance, l.one_reader, l.one_writer)))),
    )
