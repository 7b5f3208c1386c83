-- ===== src/Cluster.antt =====
-- Static membership and liveness, internal/cluster/cluster.go. A map from broker ids is an
-- association list or a function of the id, broker ids are ℕ, and the clock is an argument. A
-- duration since a time in the past is a difference of ℕ; `new` makes the timeout positive.
pub mod Controller
mod Tests
use logship.Prelude.{
  ℕ, ◌-◌, ◌<◌, ◌≤◌, ◌≡◌, refl, Bool, true, false, not, Option, none, some, List, [], ◌∷◌, arith,
  ltb, leb, ◌==◌, if◌then◌else◌, Bytes, sort_by, All,
}

pub record Peer : Type 0 where
  pub id : ℕ
  pub addr : Bytes

pub record Cluster : Type 0 where
  pub self : Peer
  pub peers : List Peer
  pub last_seen : ℕ → Option ℕ
  pub session_timeout : ℕ

unfoldable pub put_peer : Peer → List Peer → List Peer
put_peer p [] = p ∷ []
put_peer p (q ∷ qs) = if q.id == p.id then p ∷ qs else q ∷ put_peer p qs

unfoldable pub put_peers : List Peer → List Peer → List Peer
put_peers [] m = m
put_peers (p ∷ ps) m = put_peers ps (put_peer p m)

unfoldable pub seen : ℕ → ℕ → (ℕ → Option ℕ) → ℕ → Option ℕ
seen id now last_seen i = if i == id then some now else last_seen i

-- `session` is 0 for a duration that is not positive.
unfoldable pub new : Peer → List Peer → ℕ → ℕ → Cluster
new self peers session now = record {
  self = self;
  peers = put_peer self (put_peers peers []);
  last_seen = seen self.id now (λ i. none);
  session_timeout = if session == 0 then 3000000000 else session;
}

unfoldable pub mark_seen : ℕ → ℕ → Cluster → Cluster
mark_seen id now c = record {
  self = c.self;
  peers = c.peers;
  last_seen = seen id now c.last_seen;
  session_timeout = c.session_timeout;
}

unfoldable pub recent : ℕ → ℕ → Option ℕ → Bool
recent timeout now none = false
recent timeout now (some t) = ltb (now - t) timeout

unfoldable pub is_alive : ℕ → Cluster → ℕ → Bool
is_alive now c id = if id == c.self.id then true else recent c.session_timeout now (c.last_seen id)

unfoldable pub alive_peers : ℕ → Cluster → List Peer → List ℕ
alive_peers now c [] = []
alive_peers now c (p ∷ ps) =
    let rest = alive_peers now c ps in
    if p.id == c.self.id
    then p.id ∷ rest
    else if recent c.session_timeout now (c.last_seen p.id)
    then p.id ∷ rest
    else rest

unfoldable pub alive_ids : ℕ → Cluster → List ℕ
alive_ids now c = sort_by leb (alive_peers now c c.peers)

unfoldable pub head_or : ℕ → List ℕ → ℕ
head_or d [] = d
head_or d (x ∷ xs) = x

unfoldable pub controller_id : ℕ → Cluster → ℕ
controller_id now c = head_or c.self.id (alive_ids now c)

unfoldable pub is_controller : ℕ → Cluster → Bool
is_controller now c = controller_id now c == c.self.id

unfoldable pub addr_of : ℕ → List Peer → Bytes
addr_of id [] = []
addr_of id (p ∷ ps) = if p.id == id then p.addr else addr_of id ps

unfoldable pub addr : ℕ → Cluster → Bytes
addr id c = addr_of id c.peers

unfoldable pub all : Cluster → List Peer
all c = sort_by (λ p q. leb p.id q.id) c.peers

unfoldable pub without : ℕ → List Peer → List Peer
without id [] = []
without id (p ∷ ps) = if not (p.id == id) then p ∷ without id ps else without id ps

unfoldable pub other_peers : Cluster → List Peer
other_peers c = without c.self.id (all c)
