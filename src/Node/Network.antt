-- ===== src/Node/Network.antt =====
-- Several nodes (Sources/miniDHT.cpp) and the messages that they send one another. The outbox of a
-- node holds all that it has sent; a message may be lost, come late, come twice or come to another
-- node than the one it was meant for, from any end point.
use mini_dht.Base.{ℕ, List, [], ◌∷◌, ◌++◌, map, Bytes, ◌≡◌, ◌⊎◌, All}
use mini_dht.Contact.{EndpointProto, MessageProto}
use mini_dht.Db.Oldest.{IsOrdering}
use mini_dht.Node.State.{Env, Node, ok}
use mini_dht.Node.Sound.{IsSound}
use mini_dht.Node.Thread.{Phase, segment}
use mini_dht.Node.Thread.Moves.{Moves}
use mini_dht.Node.Known.{Keyed}
use mini_dht.Node.Run.{
  Event, received, disconnected, stored, node_searched, value_searched, endpoint_pinged, key_pinged,
  limited,
}

-- A node with the phase of its thread.
abbrev pub Network : Type 0
Network = List (Phase × Node)

abbrev pub ids : Network → List Bytes
ids = map (λ l. l.1.id)

abbrev pub Member : Bytes → List Bytes → Type 0
Member k [] = ⊥
Member k (j ∷ js) = (k ≡ j) ⊎ Member k js

abbrev Posted : MessageProto → List (EndpointProto × MessageProto) → Type 0
Posted m [] = ⊥
Posted m (o ∷ os) = (o.1 ≡ m) ⊎ Posted m os

-- Some node has sent the message.
abbrev pub Sent : MessageProto → Network → Type 0
Sent m [] = ⊥
Sent m (l ∷ ls) = Posted m l.1.outbox ⊎ Sent m ls

-- A message that a node receives was sent by some node.
unfoldable pub Heard : {env : Env} {n t : Node} → Network → Event env n t → Type 0
Heard net (received now ep m n t e) = Sent m net
Heard net (disconnected ep n t e) = Unit
Heard net (stored now k d n t e) = Unit
Heard net (node_searched now k n t e) = Unit
Heard net (value_searched now k c hint n t e) = Unit
Heard net (endpoint_pinged now epp t n) = Unit
Heard net (key_pinged now k t n) = Unit
Heard net (limited val n some_room) = Unit

-- One node goes on, with random numbers, a resolver and a database of its own.
pub data Step : Network → Network → Type 0 where
  happened :
      (env : Env) (before after : Network) (p : Phase) {n t : Node} (e : Event env n t)
      → IsOrdering env.first_row
      → Heard (before ++ (p, n) ∷ after) e
      → Step (before ++ (p, n) ∷ after) (before ++ (p, t) ∷ after)
  ticked :
      (env : Env) (now : ℕ) (before after : Network) (p q : Phase) (n t : Node)
      → segment env now p n ≡ ok (q, t)
      → Step (before ++ (p, n) ∷ after) (before ++ (q, t) ∷ after)

pub data Reach (net : Network) : Network → Type 0 where
  begun : Reach net net
  then : {mid end : Network} → Reach net mid → Step mid end → Reach net end

-- A sound node all of whose contacts have one of the ids.
abbrev pub IsGood : List Bytes → Phase × Node → Type 0
IsGood js (p, n) = IsSound n × Keyed (λ k. Member k js) n.contact_list.entries

-- The ids are those at the start, and every node is good for them.
abbrev IsClosed : List Bytes → Network → Type 0
IsClosed js net = (ids net ≡ js) × All (IsGood js) net

-- A sound node that knows no other.
abbrev pub IsAlone : Phase × Node → Type 0
IsAlone (p, n) = IsSound n × (n.contact_list.entries ≡ [])
