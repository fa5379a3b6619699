-- ===== src/Session/Writes.antt =====
-- `deliver` and `handle_write` of a session (Sources/miniDHT_session.h): each ends in a safe state.
use mini_dht.Base.{
  suc, ◌-◌, ◌<◌, Bool, true, false, List, [], ◌∷◌, ◌++◌, ◌≡◌, ◌≢◌, refl, ◌∙◌, ap, arith, ◌⊎◌, inl,
  inr, List-cases,
}
use mini_dht.Base.Int.{pos, increment, decrement}
use mini_dht.Session.Message.{Message}
use mini_dht.Session.State.{Session, await_write, is_idle, deliver, write_next, handle_write}
use mini_dht.Session.Steps.{IsLive}
use mini_dht.Session.Release.{IsFailing, release-IsSafe, decrement_pos}
use mini_dht.Session.Reads.{EndsSafe}

-- A queue is idle or it has a front.
pub is_idle_cases :
    (ms : List Message)
    → ((ms ≡ []) × (is_idle ms ≡ true))
      ⊎ ((m : Message) × (rest : List Message) × (ms ≡ m ∷ rest) × (is_idle ms ≡ false))
unfolding is_idle
is_idle_cases [] = inl (refl, refl)
is_idle_cases (m ∷ rest) = inr (m, rest, refl, refl)

append_busy : (m : Message) (ms : List Message) → ms ++ m ∷ [] ≢ []
append_busy m [] e = absurd (cc)
append_busy m (x ∷ ms) e = absurd (cc)

-- A queue with a new end, and an operation for it if it was idle.
queued-IsLive :
    (m : Message) (s : Session)
    → s.writing ≡ 0
    → IsLive s
    → s.write_msgs ≡ []
    → IsLive (await_write (record s { write_msgs = s.write_msgs ++ m ∷ [] }))
queued-IsLive m s none_yet l e = record {
  kept = l.kept;
  reader_failed = l.reader_failed;
  writer_failed = l.writer_failed;
  references = suc l.references;
  counted = ap increment l.counted;
  balance = omega (arith, l.balance);
  one_reader = l.one_reader;
  one_writer = omega (arith, l.idle e);
  one_failure = l.one_failure;
  idle = λ p. absurd (append_busy m s.write_msgs p);
  busy = λ x xs p. omega (arith, l.idle e);
  reader = l.reader;
  room = l.room;
}

pub deliver-IsLive : (m : Message) (s : Session) → IsLive s → IsLive (deliver m s)
unfolding deliver
deliver-IsLive m s l = elim (is_idle_cases s.write_msgs) [
  | inl (e, idle) ↦ rw (idle, deliver) (queued-IsLive m s (omega (arith, l.idle e)) l e)
  | inr (x, xs, e, busy) ↦
      rw (busy, deliver)
        (record {
          kept = l.kept;
          reader_failed = l.reader_failed;
          writer_failed = l.writer_failed;
          references = l.references;
          counted = l.counted;
          balance = l.balance;
          one_reader = l.one_reader;
          one_writer = l.one_writer;
          one_failure = l.one_failure;
          idle = λ p. absurd (append_busy m s.write_msgs p);
          busy = λ y ys p. l.busy x xs e;
          reader = l.reader;
          room = l.room;
        })
]

-- A write that failed.
failed-IsFailing :
    (s : Session)
    → 0 < s.writing
    → IsLive s
    → IsFailing (record s { writing = s.writing - 1; ref_count = decrement s.ref_count })
failed-IsFailing s begun l = record {
  kept = l.kept;
  reader_failed = l.reader_failed;
  writer_failed = suc l.writer_failed;
  references = l.references - 1;
  counted = decrement_pos s.ref_count (l.references - 1) (l.counted ∙ ap pos (omega arith));
  balance = omega arith;
  one_reader = l.one_reader;
  one_writer = omega arith;
  idle = λ p. absurd (omega (arith, l.idle p));
  busy = λ x xs p. omega arith;
  reader = l.reader;
  room = l.room;
}

-- A write that is done, with what is left of the queue.
pub write_next-IsLive :
    (ms sent : List Message) (s : Session)
    → 0 < s.writing
    → IsLive s
    → IsLive (
        write_next ms (record s {
          writing = s.writing - 1;
          ref_count = decrement s.ref_count;
          write_msgs = ms;
          written = sent;
        }))
unfolding write_next
write_next-IsLive [] sent s begun l = record {
  kept = l.kept;
  reader_failed = l.reader_failed;
  writer_failed = l.writer_failed;
  references = l.references - 1;
  counted = decrement_pos s.ref_count (l.references - 1) (l.counted ∙ ap pos (omega arith));
  balance = omega arith;
  one_reader = l.one_reader;
  one_writer = omega arith;
  one_failure = l.one_failure;
  idle = λ p. omega arith;
  busy = λ x xs p. absurd (cc);
  reader = l.reader;
  room = l.room;
}
write_next-IsLive (m ∷ ms) sent s begun l = record {
  kept = l.kept;
  reader_failed = l.reader_failed;
  writer_failed = l.writer_failed;
  references = suc (l.references - 1);
  counted =
      ap increment
        (decrement_pos s.ref_count (l.references - 1) (l.counted ∙ ap pos (omega arith)));
  balance = omega arith;
  one_reader = l.one_reader;
  one_writer = omega arith;
  one_failure = l.one_failure;
  idle = λ p. absurd (cc);
  busy = λ x xs p. omega arith;
  reader = l.reader;
  room = l.room;
}

pub handle_write-EndsSafe :
    (error : Bool) (s : Session) → 0 < s.writing → IsLive s → EndsSafe (handle_write error s)
unfolding handle_write
handle_write-EndsSafe true s begun l = release-IsSafe _ (failed-IsFailing s begun l)
handle_write-EndsSafe false s begun l = elim (List-cases s.write_msgs) [
  | inl e ↦ absurd (omega (arith, l.idle e))
  | inr (m, ms, e) ↦
      rw (e, handle_write) (inr (write_next-IsLive ms (s.written ++ m ∷ []) s begun l))
]
