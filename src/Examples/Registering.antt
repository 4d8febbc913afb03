-- ===== src/Examples/Registering.antt =====
-- The registry in memory at concrete inputs.
use lmao.Prelude.{◌≡◌, refl, String, none, List, [], ◌∷◌}
use lmao.Prelude.Dict
use lmao.Prelude.Result.{ok, err}
use lmao.Node.Poll.{AgentCard}
use lmao.Registry.{already_registered, InMemoryRegistry, register, update, find_by_capability}
use lmao.Registry.Refinement.{updates, answers, leaves, run, view, IsRegistry, run-refines}

abbrev pub card_of : String → String → List String → AgentCard
card_of key name capabilities = record {
  name = name;
  description = "";
  version = "1";
  capabilities = capabilities;
  public_key = key;
  intro_bundle = none;
}

abbrev echo : AgentCard
echo = card_of "k1" "echo" ("text" ∷ [])

abbrev louder : AgentCard
louder = card_of "k1" "louder" ("text" ∷ "voice" ∷ [])

abbrev shelf : InMemoryRegistry
shelf = ("k2", card_of "k2" "other" []) ∷ ("k1", echo) ∷ []

shelf-IsRegistry : IsRegistry shelf
unfolding Dict.lookup
shelf-IsRegistry = (refl, refl, (refl, refl, tt))

run-refines_example :
    ((run (updates louder) shelf).0 ≡ answers (updates louder) (view shelf))
    × ((k : String)
        → view (run (updates louder) shelf).1 k ≡ leaves (updates louder) (view shelf) k)
    × IsRegistry (run (updates louder) shelf).1
run-refines_example = run-refines (updates louder) shelf shelf-IsRegistry

is_registered_once : (register louder shelf).0 ≡ err (already_registered "k1")
unfolding register Dict.lookup
is_registered_once = refl

finds_updated : find_by_capability "voice" (update louder shelf).1 ≡ ok (louder ∷ [])
unfolding update find_by_capability Dict.lookup Dict.insert
finds_updated = refl
