-- ===== src/Cluster/Tests.antt =====
-- The controller of a small cluster, in the view of broker 2.
use logship.Prelude.{ℕ, ◌≤◌, ◌≡◌, refl, true, [], ◌∷◌, some, get_elem?, sort_by, insert_by}
use logship.Cluster.{
  Peer, Cluster, new, mark_seen, is_alive, controller_id, head_or, alive_ids, alive_peers, put_peer,
  put_peers, recent, seen,
}
use logship.Cluster.Controller.{controller_id-alive_least}

abbrev peer : ℕ → Peer
peer id = record { id = id; addr = [] }

-- Broker 1 was seen at 50, and the timeout is 10; broker 3 was never seen.
abbrev three : Cluster
three = mark_seen 1 50 (new (peer 2) (peer 3 ∷ peer 1 ∷ []) 10 0)

while_fresh : controller_id 55 three ≡ 1
unfolding controller_id mark_seen new head_or alive_ids sort_by alive_peers put_peer put_peers
    recent seen insert_by
while_fresh = refl

after_timeout : controller_id 60 three ≡ 2
unfolding controller_id mark_seen new head_or alive_ids sort_by alive_peers put_peer put_peers
    recent seen insert_by
after_timeout = refl

alive_at_55 : is_alive 55 three 2 ≡ true
unfolding is_alive mark_seen new
alive_at_55 = refl

third_peer : get_elem? three.peers 2 ≡ some (peer 2)
unfolding mark_seen new put_peer put_peers
third_peer = refl

controller_id-alive_least_example :
    (is_alive 55 three (controller_id 55 three) ≡ true) × (controller_id 55 three ≤ 2)
controller_id-alive_least_example =
    controller_id-alive_least 55 three 2 (peer 2) third_peer alive_at_55
