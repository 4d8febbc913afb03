-- ===== src/Node/Selection/RoundRobin.antt =====
-- Round robin in node/src/delegation.rs: the rotation runs over the trusted peers of the best tier
-- of load, and the tier is chosen before trust is asked.
use native.Mathlib.Nat.{mod-add-mod, add-mod_left, mod-eq_of_lt, mod-lt}
use lmao.Prelude.{
  ℕ, zero, suc, ◌+◌, ◌%◌, ◌^◌, ◌≤◌, ◌<◌, ◌≡◌, refl, ap, sym, ◌∙◌, String, true, some, List, [], ◌∷◌,
  map, filter, length, All, arith, Bool-cases, inl, inr, ◌⊎◌, ◌-◌, Member, eqb,
}
use lmao.Prelude.Result.{ok, err}
use lmao.Trust.{TrustList, is_trusted}
use lmao.Node.Peers.{PeerInfo, all_live}
use lmao.Node.Selection.{
  round_robin, NodeState, load_rank, best_rank, rotation, nth, found_or, no_round_robin_peer,
  pick_peer,
}

best_rank-least :
    (x : String × PeerInfo) (xs : List (String × PeerInfo))
    → Member x xs
    → best_rank xs ≤ load_rank x
unfolding best_rank
best_rank-least x [] m = absurd m
best_rank-least x (y ∷ []) (inl here) = rw here (omega arith)
best_rank-least x (y ∷ []) (inr there) = absurd there
best_rank-least x (y ∷ (z ∷ zs)) (inl here) = rw here (omega arith)
best_rank-least x (y ∷ (z ∷ zs)) (inr there) = omega (arith, best_rank-least x (z ∷ zs) there)

no_rotation :
    (trust : TrustList) (best : ℕ) (xs : List (String × PeerInfo))
    → All (λ x. is_trusted x.0 trust ≡ true → best < load_rank x) xs
    → filter (λ id. is_trusted id trust) (map (λ x. x.0) (filter (λ x. eqb (load_rank x) best) xs))
      ≡ []
no_rotation trust best [] h = refl
no_rotation trust best (x ∷ xs) h = elim (Bool-cases (eqb (load_rank x) best)) [
  | inr other ↦ rw other (no_rotation trust best xs h.1)
  | inl same ↦ elim (Bool-cases (is_trusted x.0 trust)) [
    | inr untrusted ↦ rw (same, untrusted) (no_rotation trust best xs h.1)
    | inl trusted ↦
        let above = h.0 trusted in
        let equal : load_rank x ≡ best = ground (arith, same) in
        absurd (omega (arith, above, equal))
  ]
]

-- One live peer with less load than every trusted one, be it untrusted, makes round robin refuse,
-- although a trusted peer may be live; the counter stays.
round_robin_starves :
    (now : ℕ) (s : NodeState) (x : String × PeerInfo)
    → Member x (all_live now s.peers)
    → All (λ y. is_trusted y.0 s.trust ≡ true → load_rank x < load_rank y) (all_live now s.peers)
    → pick_peer now round_robin s ≡ (err no_round_robin_peer, s)
unfolding pick_peer rotation
round_robin_starves now s x m above =
    let live = all_live now s.peers in
    let least = best_rank-least x live m in
    let empty =
      no_rotation s.trust (best_rank live) live
        (All-below s.trust (load_rank x) (best_rank live) live above least) in
    rw (empty, pick_peer) refl
  where
    All-below :
        (trust : TrustList) (a b : ℕ) (xs : List (String × PeerInfo))
        → All (λ y. is_trusted y.0 trust ≡ true → a < load_rank y) xs
        → b ≤ a
        → All (λ y. is_trusted y.0 trust ≡ true → b < load_rank y) xs
    All-below trust a b [] h le = tt
    All-below trust a b (y ∷ ys) h le =
        (λ t. omega (arith, h.0 t, le), All-below trust a b ys h.1 le)

nth_below :
    (n : ℕ) (xs : List String) → n < length xs → (x : String) × (nth n xs ≡ some x) × Member x xs
unfolding nth
nth_below n [] h = absurd (omega arith)
nth_below zero (x ∷ xs) h = (x, refl, inl refl)
nth_below (suc n) (x ∷ xs) h = let (y, e, m) = nth_below n xs (omega arith) in (y, e, inr m)

-- The state after `k` round-robin picks at one time.
abbrev pub advance : ℕ → ℕ → NodeState → NodeState
advance now zero s = s
advance now (suc k) s = (pick_peer now round_robin (advance now k s)).1

pick_some :
    (now : ℕ) (s : NodeState) (x : String) (xs : List String)
    → rotation s (all_live now s.peers) ≡ x ∷ xs
    → pick_peer now round_robin s ≡ (
      found_or no_round_robin_peer (nth (s.round_robin_counter % length (x ∷ xs)) (x ∷ xs)),
      record s { round_robin_counter = (s.round_robin_counter + 1) % 2 ^ 64 },
    )
unfolding pick_peer
pick_some now s x xs e = rw (e, pick_peer) refl

advance-counter :
    (now k : ℕ) (s : NodeState) (x : String) (xs : List String)
    → rotation s (all_live now s.peers) ≡ x ∷ xs
    → s.round_robin_counter + k < 2 ^ 64
    → advance now k s ≡ record s { round_robin_counter = s.round_robin_counter + k }
unfolding rotation
advance-counter now zero s x xs e h =
    let same : s.round_robin_counter ≡ s.round_robin_counter + 0 = omega arith in
    ap (λ (c : ℕ). record s { round_robin_counter = c }) same
advance-counter now (suc k) s x xs e h =
    let s' : NodeState = record s { round_robin_counter = s.round_robin_counter + k } in
    let moved : (s'.round_robin_counter + 1) % 2 ^ 64 ≡ s.round_robin_counter + suc k =
      omega (arith, h) in
    ap (λ t. (pick_peer now round_robin t).1) (advance-counter now k s x xs e (omega (arith, h)))
    ∙ (ap (λ r. r.1) (pick_some now s' x xs e)
        ∙ ap (λ (c : ℕ). record s { round_robin_counter = c }) moved)

turn : (c n j : ℕ) → j < n → (k : ℕ) × (k < n) × ((c + k) % n ≡ j)
turn c n j h =
    let r = c % n in
    let pos : 0 < n = omega (arith, h) in
    let small = mod-lt c pos in
    elim (leq_or_lt r j) [
      | inl le ↦
          let e : r + (j - r) ≡ j = omega (arith, le) in
          (
            j - r,
            omega (arith, h),
            sym (mod-add-mod c n (j - r)) ∙ (ap (λ i. i % n) e ∙ mod-eq_of_lt h),
          )
      | inr lt ↦
          let e : r + (n + j - r) ≡ n + j = omega (arith, lt, small) in
          (
            n + j - r,
            omega (arith, lt, small),
            sym (mod-add-mod c n (n + j - r))
                ∙ (ap (λ i. i % n) e ∙ (add-mod_left n j ∙ mod-eq_of_lt h)),
          )
    ]
  where
    leq_or_lt : (a b : ℕ) → (a ≤ b) ⊎ (b < a)
    leq_or_lt a b = omega arith

-- Round robin is fair: while the same peers are live and trusted, each peer of the rotation is
-- picked within as many picks as the rotation has peers, for a counter that does not wrap.
pub round_robin_fair :
    (now j : ℕ) (s : NodeState)
    → j < length (rotation s (all_live now s.peers))
    → s.round_robin_counter + length (rotation s (all_live now s.peers)) < 2 ^ 64
    → (k : ℕ) × (k < length (rotation s (all_live now s.peers)))
      × (id : String) × (nth j (rotation s (all_live now s.peers)) ≡ some id)
      × ((pick_peer now round_robin (advance now k s)).0 ≡ ok id)
unfolding rotation
round_robin_fair now j s below fits =
    let ids = rotation s (all_live now s.peers) in fair_in now j s ids refl below fits
  where
    fair_in :
        (now j : ℕ) (s : NodeState) (ids : List String)
        → rotation s (all_live now s.peers) ≡ ids
        → j < length ids
        → s.round_robin_counter + length ids < 2 ^ 64
        → (k : ℕ) × (k < length ids)
          × (id : String) × (nth j ids ≡ some id)
          × ((pick_peer now round_robin (advance now k s)).0 ≡ ok id)
    fair_in now j s [] e below fits = absurd (omega arith)
    fair_in now j s (x ∷ xs) e below fits =
        let (k, k_below, hits) = turn s.round_robin_counter (length (x ∷ xs)) j below in
        let (id, found, _) = nth_below j (x ∷ xs) below in
        let s' : NodeState = record s { round_robin_counter = s.round_robin_counter + k } in
        (
          k,
          k_below,
          id,
          found,
          ap (λ t. (pick_peer now round_robin t).0)
                (advance-counter now k s x xs e (omega (arith, fits, k_below)))
              ∙ (ap (λ r. r.0) (pick_some now s' x xs e)
                  ∙ ap (found_or no_round_robin_peer) (ap (λ i. nth i (x ∷ xs)) hits ∙ found)),
        )
