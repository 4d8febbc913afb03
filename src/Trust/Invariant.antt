-- ===== src/Trust/Invariant.antt =====
-- Every list that the operations of core/src/trust.rs build is a sorted map whose entries stand
-- under their own public keys.
use lmao.Prelude.{
  ℕ, ◌+◌, inl, inr, String, List, [], ◌∷◌, map, ◌==◌, Bool-cases, Option-cases, find,
}
use lmao.Trust.{
  TrustMode, TrustEntry, Entries, TrustList, contains_key, delete, put, put_all, merge_loop,
  with_mode, set_mode, add, add_unique, remove, remove_by_nickname, from_peers, merge,
}
use lmao.Trust.Order.{Above, IsSorted, IsKeyed, put-IsSorted, put-IsKeyed}

abbrev pub IsMap : Entries → Type 0
IsMap es = IsSorted es × IsKeyed es

put-IsMap : (e : TrustEntry) (es : Entries) → IsMap es → IsMap (put e.pubkey e es)
put-IsMap e es (s, k) = (put-IsSorted e.pubkey e es s, put-IsKeyed e es k)

put_all-IsMap : (vs : List TrustEntry) (es : Entries) → IsMap es → IsMap (put_all vs es)
unfolding put_all
put_all-IsMap [] es m = m
put_all-IsMap (e ∷ vs) es m = put_all-IsMap vs (put e.pubkey e es) (put-IsMap e es m)

merge_loop-IsMap :
    (vs : List TrustEntry) (n : ℕ) (es : Entries) → IsMap es → IsMap (merge_loop vs n es).1
unfolding merge_loop
merge_loop-IsMap [] n es m = m
merge_loop-IsMap (e ∷ vs) n es m = elim (Bool-cases (contains_key e.pubkey es)) [
  | inl known ↦ rw (known, merge_loop) (merge_loop-IsMap vs n es m)
  | inr new ↦
      rw (new, merge_loop) (merge_loop-IsMap vs (n + 1) (put e.pubkey e es) (put-IsMap e es m))
]

Above-delete : (i k : String) (es : Entries) → IsSorted es → Above i es → Above i (delete k es)
unfolding delete
Above-delete i k [] s a = tt
Above-delete i k ((j, e) ∷ es) s a = elim (Bool-cases (j == k)) [
  | inl same ↦ rw same a.1
  | inr other ↦ rw other (a.0, Above-delete i k es s.1 a.1)
]

delete-IsMap : (k : String) (es : Entries) → IsMap es → IsMap (delete k es)
unfolding delete
delete-IsMap k [] m = m
delete-IsMap k ((j, e) ∷ es) (s, own) = elim (Bool-cases (j == k)) [
  | inl same ↦ rw same (s.1, own.1)
  | inr other ↦
      let (s', own') = delete-IsMap k es (s.1, own.1) in
      rw other ((Above-delete j k es s.1 s.0, s'), (own.0, own'))
]

-- The lists that the operations build.
pub data Reachable : TrustList → Type 0 where
  start : (mode : TrustMode) → Reachable (with_mode mode)
  parsed : (mode : TrustMode) (peers : List TrustEntry) → Reachable (from_peers mode peers)
  moded : (mode : TrustMode) (l : TrustList) → Reachable l → Reachable (set_mode mode l)
  added : (e : TrustEntry) (l : TrustList) → Reachable l → Reachable (add e l)
  added_unique : (e : TrustEntry) (l : TrustList) → Reachable l → Reachable (add_unique e l).1
  removed : (k : String) (l : TrustList) → Reachable l → Reachable (remove k l).1
  renounced :
      (nickname : String) (l : TrustList)
      → Reachable l
      → Reachable (remove_by_nickname nickname l).1
  merged : (other l : TrustList) → Reachable other → Reachable l → Reachable (merge other l).1

-- A list that is built by the operations, from an empty one or a parsed file, has its keys in
-- rising order, none of them twice, and each entry under its own public key.
pub Reachable-IsMap : (l : TrustList) → Reachable l → IsMap l.entries
unfolding from_peers add add_unique remove remove_by_nickname merge
Reachable-IsMap l (start mode) = (tt, tt)
Reachable-IsMap l (parsed mode peers) = put_all-IsMap peers [] (tt, tt)
Reachable-IsMap l (moded mode l' r) = Reachable-IsMap l' r
Reachable-IsMap l (added e l' r) = put-IsMap e l'.entries (Reachable-IsMap l' r)
Reachable-IsMap l (added_unique e l' r) = elim (Bool-cases (contains_key e.pubkey l'.entries)) [
  | inl taken ↦ rw taken (Reachable-IsMap l' r)
  | inr free ↦ rw free (put-IsMap e l'.entries (Reachable-IsMap l' r))
]
Reachable-IsMap l (removed k l' r) = delete-IsMap k l'.entries (Reachable-IsMap l' r)
Reachable-IsMap l (renounced nickname l' r) =
    elim (Option-cases (find (λ (k, e). e.nickname == nickname) l'.entries)) [
      | inl nobody ↦ rw (nobody, remove_by_nickname) (Reachable-IsMap l' r)
      | inr ((k, e), found) ↦
          rw (found, remove_by_nickname) (delete-IsMap k l'.entries (Reachable-IsMap l' r))
    ]
Reachable-IsMap l (merged other l' r r') =
    merge_loop-IsMap (map (λ (k, e). e) other.entries) 0 l'.entries (Reachable-IsMap l' r')
