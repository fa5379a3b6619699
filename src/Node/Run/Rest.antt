-- ===== src/Node/Run/Rest.antt =====
-- The thread of `periodic` comes to rest at its timer (Sources/miniDHT.cpp).
use mini_dht.Base.{ℕ, ◌≡◌, ◌≢◌}
use mini_dht.Node.State.{Env, Node, ok, fault, out_of_fuel}
use mini_dht.Node.Thread.{Phase, waiting, segment}
use mini_dht.Node.Thread.Moves.{Moves}
use mini_dht.Node.Run.{Event}

-- What happens to the node while the lock is free.
pub data Events (env : Env) (n : Node) : Node → Type 0 where
  quiet : Events env n n
  then : {t u : Node} → Events env n t → Event env t u → Events env n u

-- Whatever happens between its segments, the thread comes to the timer after finitely many of them
-- unless one has a fault, and no fault is a want of fuel.
pub data Rests (env : Env) : Phase → Node → Type 0 where
  alarm_set : (at : ℕ) (n : Node) → Rests env (waiting at) n
  goes_on :
      (p : Phase) (n : Node)
      → ((t : Node) (now : ℕ) → Events env n t → segment env now p t ≢ fault out_of_fuel)
      → ((t u : Node) (now : ℕ) (q : Phase)
          → Events env n t
          → segment env now p t ≡ ok (q, u)
          → Rests env q u)
      → Rests env p n
