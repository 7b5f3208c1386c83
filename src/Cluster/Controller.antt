-- ===== src/Cluster/Controller.antt =====
-- Which broker is the controller, internal/cluster/cluster.go.
use logship.Prelude.{
  ℕ, ◌≡◌, ◌≤◌, refl, Bool, true, false, some, List, [], ◌∷◌, arith, ◌==◌, if◌then◌else◌, leb, All,
  All-map, insert_by, sort_by, leb→le, leb-false→lt, Bool-cases, inl, inr, ==_refl, get_elem?, zero,
  suc, subst,
}
use logship.Cluster.{Peer, Cluster, is_alive, alive_peers, alive_ids, head_or, controller_id}

head_or-insert_by : (d a : ℕ) (bs : List ℕ) → head_or d (insert_by leb a bs) ≤ a
unfolding head_or insert_by
head_or-insert_by d a [] = omega arith
head_or-insert_by d a (b ∷ bs) = ground (arith, leb-false→lt a b)

head_or-insert_le : (d a : ℕ) (bs : List ℕ) → head_or d (insert_by leb a bs) ≤ head_or a bs
unfolding head_or insert_by
head_or-insert_le d a [] = omega arith
head_or-insert_le d a (b ∷ bs) = ground (arith, leb→le a b)

sorted-least : (d : ℕ) (xs : List ℕ) → All (λ x. head_or d (sort_by leb xs) ≤ x) xs
unfolding sort_by
sorted-least d [] = tt
sorted-least d (a ∷ xs) = (
  head_or-insert_by d a (sort_by leb xs),
  All-map xs (λ x h. omega (arith, head_or-insert_le d a (sort_by leb xs), h)) (sorted-least a xs),
)

-- The two tests that list a peer.
unlisted :
    (P : ℕ → Type 0) (x : ℕ) (xs : List ℕ) (is_self is_recent : Bool)
    → All P (if is_self then x ∷ xs else if is_recent then x ∷ xs else xs)
    → ((if is_self then true else is_recent) ≡ true → P x) × All P xs
unlisted P x xs true is_recent (h, hs) = (λ e. h, hs)
unlisted P x xs false true (h, hs) = (λ e. h, hs)
unlisted P x xs false false hs = (λ e. cc, hs)

listed :
    (P : ℕ → Type 0) (x : ℕ) (xs : List ℕ) (is_self is_recent : Bool)
    → ((if is_self then true else is_recent) ≡ true → P x)
    → All P xs
    → All P (if is_self then x ∷ xs else if is_recent then x ∷ xs else xs)
listed P x xs true is_recent h hs = (h refl, hs)
listed P x xs false true h hs = (h refl, hs)
listed P x xs false false h hs = hs

alive_peers-All :
    (now : ℕ) (c : Cluster) (P : ℕ → Type 0) (ps : List Peer)
    → All P (alive_peers now c ps)
    → All (λ p. is_alive now c p.id ≡ true → P p.id) ps
unfolding alive_peers is_alive
alive_peers-All now c P [] h = tt
alive_peers-All now c P (p ∷ ps) h =
    let (k, ks) = unlisted P p.id (alive_peers now c ps) (p.id == c.self.id) _ h in
    (k, alive_peers-All now c P ps ks)

All-get_elem? :
    (P : Peer → Type 0) (ps : List Peer) (k : ℕ) (p : Peer)
    → All P ps
    → get_elem? ps k ≡ some p
    → P p
All-get_elem? P [] k p h e = cc
All-get_elem? P (q ∷ ps) zero p h e = let same : q ≡ p = cc in subst (λ x. P x) same h.0
All-get_elem? P (q ∷ ps) (suc k) p h e = All-get_elem? P ps k p h.1 e

controller_id-least :
    (now : ℕ) (c : Cluster) (k : ℕ) (p : Peer)
    → get_elem? c.peers k ≡ some p
    → is_alive now c p.id ≡ true
    → controller_id now c ≤ p.id
unfolding controller_id alive_ids
controller_id-least now c k p member =
    All-get_elem? (λ p. is_alive now c p.id ≡ true → controller_id now c ≤ p.id) c.peers k p
      (alive_peers-All now c (λ i. head_or c.self.id (alive_ids now c) ≤ i) c.peers
        (sorted-least c.self.id (alive_peers now c c.peers)))
      member

head_or-All : (P : ℕ → Type 0) (d : ℕ) (xs : List ℕ) → P d → All P xs → P (head_or d xs)
unfolding head_or
head_or-All P d [] h k = h
head_or-All P d (x ∷ xs) h (k, ks) = k

alive_peers-alive :
    (now : ℕ) (c : Cluster) (ps : List Peer)
    → All (λ i. is_alive now c i ≡ true) (alive_peers now c ps)
unfolding alive_peers is_alive
alive_peers-alive now c [] = tt
alive_peers-alive now c (p ∷ ps) =
    listed (λ i. is_alive now c i ≡ true) p.id (alive_peers now c ps) (p.id == c.self.id) _ (λ h. h)
      (alive_peers-alive now c ps)

All-insert_by : (P : ℕ → Type 0) (a : ℕ) (bs : List ℕ) → P a → All P bs → All P (insert_by leb a bs)
unfolding insert_by
All-insert_by P a [] h hs = (h, hs)
All-insert_by P a (b ∷ bs) h (k, ks) = elim (Bool-cases (leb a b)) [
  | inl below ↦ rw below (h, (k, ks))
  | inr above ↦ rw above (k, All-insert_by P a bs h ks)
]

All-sort_by : (P : ℕ → Type 0) (xs : List ℕ) → All P xs → All P (sort_by leb xs)
unfolding sort_by
All-sort_by P [] h = h
All-sort_by P (a ∷ xs) (h, hs) = All-insert_by P a (sort_by leb xs) h (All-sort_by P xs hs)

self-alive : (now : ℕ) (c : Cluster) → is_alive now c c.self.id ≡ true
unfolding is_alive
self-alive now c = rw (==_refl c.self.id)

controller_id-alive : (now : ℕ) (c : Cluster) → is_alive now c (controller_id now c) ≡ true
unfolding controller_id alive_ids
controller_id-alive now c =
    head_or-All (λ i. is_alive now c i ≡ true) c.self.id _ (self-alive now c)
      (All-sort_by _ (alive_peers now c c.peers) (alive_peers-alive now c c.peers))

-- The controller is alive in the view of the broker that names it, and no broker of the cluster that is
-- alive has a lower id.
pub controller_id-alive_least :
    (now : ℕ) (c : Cluster) (k : ℕ) (p : Peer)
    → get_elem? c.peers k ≡ some p
    → is_alive now c p.id ≡ true
    → (is_alive now c (controller_id now c) ≡ true) × (controller_id now c ≤ p.id)
controller_id-alive_least now c k p member alive =
    (controller_id-alive now c, controller_id-least now c k p member alive)
