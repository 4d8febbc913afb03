-- ===== src/Node/Peers/Eviction.antt =====
-- Presence of node/src/presence.rs: what eviction leaves, and how long an
-- announcement is believed.
use lmao.Prelude.{
  ℕ, ◌+◌, ◌*◌, ◌^◌, ◌≤◌, ◌<◌, ◌≡◌, ◌≢◌, refl, subst, ◌⊎◌, inl, inr, String, Bool, not, ◌&&◌, Option,
  none, some, List, [], ◌∷◌, filter, any, length, length-filter-le, eq_iff, ◌==◌, Bool-cases, arith,
  max,
}
use lmao.Prelude.Dict
use lmao.Prelude.Dict.{Dict, lookup-insert}
use lmao.Node.Peers.{
  free, busy, full, from_load, LoadStatus, PresenceAnnouncement, PeerInfo, PeerMap, is_expired_at,
  update_with_load, get, find_by_capability, all_live, evict_expired,
}

-- Each agent stands in the map once.
abbrev pub IsMap : PeerMap → Type 0
IsMap [] = Unit
IsMap ((id, info) ∷ peers) = (Dict.lookup id peers ≡ none) × IsMap peers

lookup-filter-none :
    (p : String × PeerInfo → Bool) (id : String) (peers : PeerMap)
    → Dict.lookup id peers ≡ none
    → Dict.lookup id (filter p peers) ≡ none
unfolding Dict.lookup
lookup-filter-none p id [] h = refl
lookup-filter-none p id ((j, info) ∷ peers) h = ground (arith, lookup-filter-none p id peers)

get-filter :
    (now : ℕ) (id : String) (peers : PeerMap)
    → IsMap peers
    → get now id (filter (λ x. not (is_expired_at now x.1)) peers) ≡ get now id peers
unfolding Dict.lookup
get-filter now id [] m = refl
get-filter now id ((j, info) ∷ peers) m = elim (Bool-cases (j == id)) [
  | inl same ↦
      let absent = subst (λ x. Dict.lookup x peers ≡ none) ((eq_iff j id).0 same) m.0 in
      let absent' = lookup-filter-none (λ x. not (is_expired_at now x.1)) id peers absent in
      ground (arith, same, absent')
  | inr other ↦ ground (arith, other, get-filter now id peers m.1)
]

-- What is left of the map is what `get` finds.
lookup-filter :
    (now : ℕ) (id : String) (peers : PeerMap)
    → IsMap peers
    → Dict.lookup id (filter (λ x. not (is_expired_at now x.1)) peers) ≡ get now id peers
unfolding Dict.lookup
lookup-filter now id [] m = refl
lookup-filter now id ((j, info) ∷ peers) m = elim (Bool-cases (j == id)) [
  | inl same ↦
      let absent = subst (λ x. Dict.lookup x peers ≡ none) ((eq_iff j id).0 same) m.0 in
      let absent' = lookup-filter-none (λ x. not (is_expired_at now x.1)) id peers absent in
      ground (arith, same, absent')
  | inr other ↦ ground (arith, other, lookup-filter now id peers m.1)
]

filter-filter :
    {A : Type 0} (p q : A → Bool) (xs : List A)
    → filter (λ x. p x && q x) (filter p xs) ≡ filter (λ x. p x && q x) xs
filter-filter p q [] = refl
filter-filter p q (x ∷ xs) = ground (arith, filter-filter p q xs)

filter_twice : {A : Type 0} (p : A → Bool) (xs : List A) → filter p (filter p xs) ≡ filter p xs
filter_twice p [] = refl
filter_twice p (x ∷ xs) = ground (arith, filter_twice p xs)

filter-IsMap :
    (p : String × PeerInfo → Bool) (peers : PeerMap) → IsMap peers → IsMap (filter p peers)
filter-IsMap p [] m = tt
filter-IsMap p ((id, info) ∷ peers) m = elim (Bool-cases (p (id, info))) [
  | inl kept ↦ rw kept (lookup-filter-none p id peers m.0, filter-IsMap p peers m.1)
  | inr dropped ↦ rw dropped (filter-IsMap p peers m.1)
]

-- After an eviction at some time of a map that holds each agent once, an entry stands in the map if and
-- only if `get` at that time found it there before: the expired entries are gone and the others are as
-- they were. The answers of `get`, `all_live` and `find_by_capability` at that time are as before,
-- the map holds each agent once, and the number that is returned is by how much it is shorter.
pub evict_expired-queries :
    (now : ℕ) (id capability : String) (peers : PeerMap)
    → IsMap peers
    → let (removed, left) = evict_expired now peers in
      (Dict.lookup id left ≡ get now id peers)
      × (get now id left ≡ get now id peers)
      × (all_live now left ≡ all_live now peers)
      × (find_by_capability now capability left ≡ find_by_capability now capability peers)
      × IsMap left
      × (removed + length left ≡ length peers)
unfolding evict_expired all_live find_by_capability
evict_expired-queries now id capability peers m =
    let live_peer : String × PeerInfo → Bool = λ x. not (is_expired_at now x.1) in
    (
      lookup-filter now id peers m,
      get-filter now id peers m,
      filter_twice live_peer peers,
      filter-filter live_peer (λ x. any (λ c. c == capability) x.1.capabilities) peers,
      filter-IsMap live_peer peers m,
      omega (arith, length-filter-le live_peer peers),
    )

-- Asked at a time not before `now`: an announcement that arrived at `now` is believed until its
-- time to live has passed, and not longer; one with no time to live is never believed. The entries
-- of other agents stay.
get-update :
    (now t : ℕ) (a : PresenceAnnouncement) (load : Option LoadStatus) (other : String)
    (peers : PeerMap)
    → now ≤ t
    → let peers' = update_with_load now a load peers in
      ((0 < a.ttl_secs) × (t ≤ now + a.ttl_secs)
        → (info : PeerInfo) × (get t a.agent_id peers' ≡ some info)
          × (info.capabilities ≡ a.capabilities)
          × (info.load ≡ load)
          × (info.last_seen ≡ now))
      × ((a.ttl_secs ≡ 0) ⊎ (now + a.ttl_secs < t) → get t a.agent_id peers' ≡ none)
      × (other ≢ a.agent_id → get t other peers' ≡ get t other peers)
unfolding update_with_load
get-update now t a load other peers later =
    let info : PeerInfo = record {
      name = a.name;
      capabilities = a.capabilities;
      waku_topic = a.waku_topic;
      ttl_secs = a.ttl_secs;
      last_seen = now;
      load = load;
    } in
    let own = lookup-insert a.agent_id a.agent_id info peers in
    let others = lookup-insert a.agent_id other info peers in
    (
      λ (pos, soon). (info, ground (arith, own, eq_iff a.agent_id a.agent_id), refl, refl, refl),
      λ gone. ground (arith, own, gone, eq_iff a.agent_id a.agent_id),
      λ ne. ground (arith, others, ne, eq_iff a.agent_id other),
    )

-- For a queue below 2^31 the bucket is the documented one: full at the ceiling, busy from half of
-- it on, free below; a ceiling of 0 counts as 1.
pub from_load-doc :
    (q most : ℕ)
    → q < 2 ^ 31
    → (max most 1 ≤ q → from_load q most ≡ full)
      × (q < max most 1 → max most 1 ≤ q * 2 → from_load q most ≡ busy)
      × (q * 2 < max most 1 → from_load q most ≡ free)
unfolding from_load
from_load-doc q most small =
    (λ h. ground (arith, h), λ h g. ground (arith, h, g), λ h. ground (arith, h))

-- From 2^31 on the doubled 32-bit count wraps: a queue just below its 32-bit ceiling is called
-- free.
from_load_wraps : (q most : ℕ) → 2 ^ 31 ≤ q → q < most → most < 2 ^ 32 → from_load q most ≡ free
unfolding from_load
from_load_wraps q most large below word = ground arith
