-- ===== src/Registry.antt =====
-- crates/logos-messaging-a2a-core/src/registry.rs: the registry of agents, its errors and the registry
-- in memory. A method holds the lock from its first to its last step.
pub mod Refinement
use lmao.Prelude.{String, Bool, true, false, Option, none, some, List, [], ◌∷◌, any, filter, ◌==◌}
use lmao.Prelude.Dict
use lmao.Prelude.Dict.{Dict}
use lmao.Prelude.Keyed.{values}
use lmao.Prelude.Result.{Result, ok, err}
use lmao.Transport.{concat}
use lmao.Node.Poll.{AgentCard}

pub data RegistryError : Type 0 where
  not_found : String → RegistryError
  unauthorized : String → RegistryError
  already_registered : String → RegistryError
  backend : String → RegistryError

-- `Display`
abbrev pub display : RegistryError → String
display (not_found key) = concat "agent not found: " key
display (unauthorized msg) = concat "unauthorized: " msg
display (already_registered key) = concat "agent already registered: " key
display (backend msg) = concat "registry backend error: " msg

-- The trait; `R` is the state behind the registry.
pub record AgentRegistry (R : Type 0) : Type 0 where
  pub register : AgentCard → R → Result RegistryError Unit × R
  pub update : AgentCard → R → Result RegistryError Unit × R
  pub deregister : String → R → Result RegistryError Unit × R
  pub get : String → R → Result RegistryError AgentCard
  pub list : R → Result RegistryError (List AgentCard)
  pub find_by_capability : String → R → Result RegistryError (List AgentCard)

abbrev pub InMemoryRegistry : Type 0
InMemoryRegistry = Dict AgentCard

abbrev pub new : InMemoryRegistry
new = []

unfoldable pub register :
    AgentCard → InMemoryRegistry → Result RegistryError Unit × InMemoryRegistry
register card agents = elim (Dict.lookup card.public_key agents) [
  | some _ ↦ (err (already_registered card.public_key), agents)
  | none ↦ (ok tt, Dict.insert card.public_key card agents)
]

unfoldable pub update : AgentCard → InMemoryRegistry → Result RegistryError Unit × InMemoryRegistry
update card agents = elim (Dict.lookup card.public_key agents) [
  | none ↦ (err (not_found card.public_key), agents)
  | some _ ↦ (ok tt, Dict.insert card.public_key card agents)
]

unfoldable pub deregister : String → InMemoryRegistry → Result RegistryError Unit × InMemoryRegistry
deregister public_key agents =
    let left = Dict.remove public_key agents in
    elim (Dict.lookup public_key agents) [
      | none ↦ (err (not_found public_key), left)
      | some _ ↦ (ok tt, left)
    ]

unfoldable pub get : String → InMemoryRegistry → Result RegistryError AgentCard
get public_key agents = elim (Dict.lookup public_key agents) [
  | none ↦ err (not_found public_key)
  | some card ↦ ok card
]

unfoldable pub list : InMemoryRegistry → Result RegistryError (List AgentCard)
list agents = ok (values agents)

abbrev pub offers : String → AgentCard → Bool
offers capability card = any (λ cap. cap == capability) card.capabilities

unfoldable pub find_by_capability :
    String → InMemoryRegistry → Result RegistryError (List AgentCard)
find_by_capability capability agents = ok (filter (offers capability) (values agents))

abbrev pub in_memory : AgentRegistry InMemoryRegistry
in_memory = record {
  register = register;
  update = update;
  deregister = deregister;
  get = get;
  list = list;
  find_by_capability = find_by_capability;
}
