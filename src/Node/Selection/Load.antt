-- ===== src/Node/Selection/Load.antt =====
-- Which peer node/src/delegation.rs picks: a live, trusted one of the least load.
use lmao.Prelude.{
  ℕ, ◌≤◌, ◌≡◌, ◌≢◌, refl, String, Bool, true, false, Option, none, some, List, [], ◌∷◌, map, find,
  All, Bool-cases, inl, inr, Member, sort_by_key, IsBest, find-IsBest,
}
use lmao.Prelude.Result.{Result, ok, err}
use lmao.Trust.{is_trusted, is_trusted_for}
use lmao.Node.Peers.{PeerInfo, all_live, find_by_capability}
use lmao.Node.Selection.{
  DelegationStrategy, first_available, broadcast_collect, round_robin, capability_match, NodeError,
  NodeState, load_rank, least_loaded, found_or, pick_peer,
}

-- The peers that a strategy chooses from, and those of them that it may use.
abbrev pub candidates : ℕ → DelegationStrategy → NodeState → List (String × PeerInfo)
candidates now (capability_match capability) s = find_by_capability now capability s.peers
candidates now first_available s = all_live now s.peers
candidates now broadcast_collect s = all_live now s.peers
candidates now round_robin s = all_live now s.peers

abbrev pub allowed : DelegationStrategy → NodeState → String → Bool
allowed (capability_match capability) s id = is_trusted_for id capability s.trust
allowed first_available s id = is_trusted id s.trust
allowed broadcast_collect s id = is_trusted id s.trust
allowed round_robin s id = is_trusted id s.trust

-- A picked peer is a candidate that is allowed, and no allowed candidate has less load; if none is
-- picked then none is allowed.
abbrev pub IsLeastLoaded :
    (String → Bool) → List (String × PeerInfo) → Result NodeError String → Type 0
IsLeastLoaded may pool (err e) = All (λ x. may x.0 ≡ false) pool
IsLeastLoaded may pool (ok id) =
    (info : PeerInfo) × Member (id, info) pool
    × (may id ≡ true)
    × All (λ y. may y.0 ≡ true → load_rank (id, info) ≤ load_rank y) pool

abbrev first_name : Option (String × PeerInfo) → Option String
first_name none = none
first_name (some x) = some x.0

find-map :
    (p : String → Bool) (xs : List (String × PeerInfo))
    → find p (map (λ x. x.0) xs) ≡ first_name (find (λ x. p x.0) xs)
find-map p [] = refl
find-map p (x ∷ xs) = elim (Bool-cases (p x.0)) [
  | inl hit ↦ rw hit refl
  | inr miss ↦ rw miss (find-map p xs)
]

of_best :
    (may : String → Bool) (pool : List (String × PeerInfo)) (e : NodeError)
    (o : Option (String × PeerInfo))
    → IsBest load_rank (λ x. may x.0) pool o
    → IsLeastLoaded may pool (found_or e (first_name o))
of_best may pool e none h = h
of_best may pool e (some (id, info)) (m, may_id, least) = (info, m, may_id, least)

least_loaded-IsLeastLoaded :
    (may : String → Bool) (pool : List (String × PeerInfo)) (e : NodeError)
    → IsLeastLoaded may pool (found_or e (least_loaded may pool))
unfolding least_loaded
least_loaded-IsLeastLoaded may pool e = rw (find-map may (sort_by_key load_rank pool)) (
    of_best may pool e (find (λ x. may x.0) (sort_by_key load_rank pool))
      (find-IsBest load_rank (λ x. may x.0) pool))

-- Every strategy but round robin picks a live peer that the trust list allows, with the capability
-- that is asked for, of the least load among these; it fails only when there is none. The node's
-- state stays.
pub pick_peer-IsLeastLoaded :
    (now : ℕ) (strategy : DelegationStrategy) (s : NodeState)
    → strategy ≢ round_robin
    → let (r, s') = pick_peer now strategy s in
      IsLeastLoaded (allowed strategy s) (candidates now strategy s) r × (s' ≡ s)
unfolding pick_peer
pick_peer-IsLeastLoaded now first_available s ne =
    (least_loaded-IsLeastLoaded (λ id. is_trusted id s.trust) (all_live now s.peers) _, refl)
pick_peer-IsLeastLoaded now (capability_match capability) s ne = (
  least_loaded-IsLeastLoaded (λ id. is_trusted_for id capability s.trust)
      (find_by_capability now capability s.peers) _,
  refl,
)
pick_peer-IsLeastLoaded now broadcast_collect s ne =
    (least_loaded-IsLeastLoaded (λ id. is_trusted id s.trust) (all_live now s.peers) _, refl)
pick_peer-IsLeastLoaded now round_robin s ne = absurd (ne refl)
