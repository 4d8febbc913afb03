-- ===== src/Registry/Refinement.antt =====
-- The registry in memory of core/src/registry.rs implements the trait's contract: a map from public
-- keys to cards. The order in which its hash map is listed is forgotten.
use lmao.Prelude.{
  ◌≡◌, refl, sym, ap, ◌∙◌, ◌↔◌, String, Bool, true, false, Option, none, some, List, [], ◌∷◌,
  filter, ◌==◌, if◌then◌else◌, Option-cases, Bool-cases, inl, inr, Member,
}
use lmao.Prelude.Dict
use lmao.Prelude.Dict.{lookup-insert, lookup-remove}
use lmao.Prelude.Keyed.{
  values, IsKeyed, insert-IsKeyed, remove-IsKeyed, Member-values, some_inj, none_not_some,
}
use lmao.Prelude.Result.{Result, ok, err, ok_inj, err_not_ok}
use lmao.Node.Poll.{AgentCard}
use lmao.Registry.{
  RegistryError, not_found, already_registered, InMemoryRegistry, register, update, deregister, get,
  list, find_by_capability, offers,
}

false_not_true : false ≡ true → ⊥
false_not_true h = cc h

-- What a registry holds, and the calls that change it.
abbrev pub Book : Type 0
Book = String → Option AgentCard

pub data Call : Type 0 where
  registers : AgentCard → Call
  updates : AgentCard → Call
  deregisters : String → Call

abbrev pub put : AgentCard → Book → Book
put card b k = if card.public_key == k then some card else b k

abbrev pub without : String → Book → Book
without key b k = if key == k then none else b k

-- The contract: what a call answers, and the book after it.
abbrev pub answers : Call → Book → Result RegistryError Unit
answers (registers card) b = elim (b card.public_key) [
  | none ↦ ok tt
  | some _ ↦ err (already_registered card.public_key)
]
answers (updates card) b = elim (b card.public_key) [
  | none ↦ err (not_found card.public_key)
  | some _ ↦ ok tt
]
answers (deregisters key) b = elim (b key) [ none ↦ err (not_found key) | some _ ↦ ok tt ]

abbrev pub leaves : Call → Book → Book
leaves (registers card) b = elim (b card.public_key) [ none ↦ put card b | some _ ↦ b ]
leaves (updates card) b = elim (b card.public_key) [ none ↦ b | some _ ↦ put card b ]
leaves (deregisters key) b = without key b

abbrev pub run : Call → InMemoryRegistry → Result RegistryError Unit × InMemoryRegistry
run (registers card) r = register card r
run (updates card) r = update card r
run (deregisters key) r = deregister key r

abbrev pub view : InMemoryRegistry → Book
view r k = Dict.lookup k r

abbrev pub IsRegistry : InMemoryRegistry → Type 0
IsRegistry r = IsKeyed (λ c. c.public_key) r

-- Each call on a registry that holds each card once, under its own key, answers what the contract
-- says of the book that the registry stands for, leaves the contract's book, and keeps the registry
-- such a one.
pub run-refines :
    (call : Call) (r : InMemoryRegistry)
    → IsRegistry r
    → ((run call r).0 ≡ answers call (view r))
      × ((k : String) → view (run call r).1 k ≡ leaves call (view r) k)
      × IsRegistry (run call r).1
unfolding register update deregister
run-refines (registers card) r h = elim (Option-cases (Dict.lookup card.public_key r)) [
  | inl e ↦
      rw (e, register, answers, leaves)
        (
          refl,
          λ k. lookup-insert card.public_key k card r,
          insert-IsKeyed (λ c. c.public_key) card r h,
        )
  | inr (old, e) ↦ rw (e, register, answers, leaves) (refl, λ k. refl, h)
]
run-refines (updates card) r h = elim (Option-cases (Dict.lookup card.public_key r)) [
  | inl e ↦ rw (e, update, answers, leaves) (refl, λ k. refl, h)
  | inr (old, e) ↦
      rw (e, update, answers, leaves)
        (
          refl,
          λ k. lookup-insert card.public_key k card r,
          insert-IsKeyed (λ c. c.public_key) card r h,
        )
]
run-refines (deregisters key) r h = elim (Option-cases (Dict.lookup key r)) [
  | inl e ↦
      rw (e, deregister, answers)
        (refl, λ k. lookup-remove key k r, remove-IsKeyed (λ c. c.public_key) key r h)
  | inr (old, e) ↦
      rw (e, deregister, answers)
        (refl, λ k. lookup-remove key k r, remove-IsKeyed (λ c. c.public_key) key r h)
]

Member-filter :
    {A : Type 0} (p : A → Bool) (x : A) (xs : List A)
    → Member x (filter p xs) ↔ (Member x xs × (p x ≡ true))
Member-filter p x [] = (λ m. absurd m, λ m. absurd m.0)
Member-filter p x (y ∷ ys) = elim (Bool-cases (p y)) [
  | inl kept ↦ rw kept (
    λ m. elim m [
      | inl e ↦ (inl e, ap p e ∙ kept)
      | inr m' ↦ let (a, b) = (Member-filter p x ys).0 m' in (inr a, b)
    ],
    λ m. elim m.0 [ inl e ↦ inl e | inr m' ↦ inr ((Member-filter p x ys).1 (m', m.1)) ],
  )
  | inr dropped ↦ rw dropped (
    λ m. let (a, b) = (Member-filter p x ys).0 m in (inr a, b),
    λ m. elim m.0 [
      | inl e ↦ absurd (false_not_true (sym dropped ∙ sym (ap p e) ∙ m.1))
      | inr m' ↦ (Member-filter p x ys).1 (m', m.1)
    ],
  )
]

get-lookup :
    (k : String) (card : AgentCard) (r : InMemoryRegistry)
    → (Dict.lookup k r ≡ some card) ↔ (get k r ≡ ok card)
unfolding get
get-lookup k card r = elim (Option-cases (Dict.lookup k r)) [
  | inl e ↦
      rw (e, get)
        (λ h. absurd (none_not_some card h), λ h. absurd (err_not_ok (not_found k) card h))
  | inr (found, e) ↦
      rw (e, get) (λ h. ap ok (some_inj found card h), λ h. ap some (ok_inj found card h))
]

Member-get :
    (card : AgentCard) (r : InMemoryRegistry)
    → IsRegistry r
    → Member card (values r) ↔ (get card.public_key r ≡ ok card)
Member-get card r h =
    let (a, b) = Member-values (λ (c : AgentCard). c.public_key) card r h in
    let (c, d) = get-lookup card.public_key card r in (λ m. c (a m), λ e. b (d e))

-- The cards that a search by capability returns are those that a lookup of their public keys returns
-- and that have the capability; the cards of the list are all that lookups return.
list-get :
    (r : InMemoryRegistry) (capability : String)
    → IsRegistry r
    → (all found : List AgentCard) × (list r ≡ ok all)
      × (find_by_capability capability r ≡ ok found)
      × ((card : AgentCard) → Member card all ↔ (get card.public_key r ≡ ok card))
      × ((card : AgentCard)
          → Member card found
            ↔ ((get card.public_key r ≡ ok card) × (offers capability card ≡ true)))
unfolding list find_by_capability
list-get r capability h = (
  values r,
  filter (offers capability) (values r),
  refl,
  refl,
  λ card. Member-get card r h,
  λ card. (
    λ m.
        let (a, b) = (Member-filter (offers capability) card (values r)).0 m in
        ((Member-get card r h).0 a, b),
    λ m. (Member-filter (offers capability) card (values r)).1 ((Member-get card r h).1 m.0, m.1),
  ),
)
