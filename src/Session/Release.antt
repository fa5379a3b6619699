-- ===== src/Session/Release.antt =====
-- The method `release` of a session (Sources/miniDHT_session.h), after an operation has failed.
use mini_dht.Base.{
  ℕ, zero, suc, ◌+◌, ◌≤◌, ◌<◌, true, false, List, [], ◌∷◌, ◌≡◌, refl, ◌∙◌, ap, arith, inl, inr,
}
use mini_dht.Base.Int.{ℤ, pos, decrement, is_not_positive}
use mini_dht.Session.Message.{Message, header_length, packet_size}
use mini_dht.Session.Framing.Stream.{IsReader}
use mini_dht.Session.State.{Session, release}
use mini_dht.Session.Steps.{IsQuiet, IsLive, IsSafe}

-- A session whose operation has just failed: the failure is counted, the reference of the
-- operation is gone and that of the failure is to go.
pub record IsFailing (s : Session) : Type 0 where
  pub kept : s.deleted ≡ false
  pub reader_failed : ℕ
  pub writer_failed : ℕ
  pub references : ℕ
  pub counted : s.ref_count ≡ pos references
  pub balance :
      references + (reader_failed + writer_failed)
      ≡ 2 + (s.connecting + s.reading_header + s.reading_body + s.writing)
  pub one_reader : s.connecting + s.reading_header + s.reading_body + reader_failed ≡ 1
  pub one_writer : s.writing + writer_failed ≤ 1
  pub idle : s.write_msgs ≡ [] → s.writing + writer_failed ≡ 0
  pub busy :
      (m : Message) (ms : List Message) → s.write_msgs ≡ m ∷ ms → s.writing + writer_failed ≡ 1
  pub reader : IsReader s.read_msg
  pub room : 0 < s.reading_body → header_length + s.read_msg.body_length ≤ packet_size

release_last :
    (s : Session) → is_not_positive (decrement s.ref_count) ≡ true → IsQuiet s → IsSafe (release s)
unfolding release
release_last s last q = rw last (
    inl (
      refl,
      record {
        no_connect = q.no_connect;
        no_header = q.no_header;
        no_body = q.no_body;
        no_write = q.no_write;
      },
    ))

release_kept :
    (s : Session)
    → is_not_positive (decrement s.ref_count) ≡ false
    → IsLive (record s { ref_count = decrement s.ref_count })
    → IsSafe (release s)
unfolding release
release_kept s more l = rw more (inr l)

-- What `decrement` makes of a count.
last_reference : (r : ℤ) (k : ℕ) → r ≡ pos k → k ≤ 1 → is_not_positive (decrement r) ≡ true
last_reference r zero e h = rw e refl
last_reference r (suc zero) e h = rw e refl
last_reference r (suc (suc k)) e h = absurd (omega arith)

pub decrement_pos : (r : ℤ) (k : ℕ) → r ≡ pos (suc k) → decrement r ≡ pos k
decrement_pos r k e = rw e refl

release_at : (k : ℕ) (s : Session) (f : IsFailing s) → f.references ≡ k → IsSafe (release s)
release_at zero s f e =
    release_last s (last_reference s.ref_count f.references f.counted (omega (arith, e)))
      (omega (arith, e))
release_at (suc zero) s f e =
    release_last s (last_reference s.ref_count f.references f.counted (omega (arith, e)))
      (omega (arith, e))
release_at (suc (suc k)) s f e =
    let left : decrement s.ref_count ≡ pos (suc k) =
      decrement_pos s.ref_count (suc k) (f.counted ∙ ap pos e) in
    release_kept s (rw left (ground arith)) (record {
      kept = f.kept;
      reader_failed = f.reader_failed;
      writer_failed = f.writer_failed;
      references = suc k;
      counted = left;
      balance = omega (arith, e);
      one_reader = f.one_reader;
      one_writer = f.one_writer;
      one_failure = omega (arith, e);
      idle = f.idle;
      busy = f.busy;
      reader = f.reader;
      room = f.room;
    })

pub release-IsSafe : (s : Session) → IsFailing s → IsSafe (release s)
release-IsSafe s f = release_at f.references s f refl
