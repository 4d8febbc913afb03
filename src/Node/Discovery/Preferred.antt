-- ===== src/Node/Discovery/Preferred.antt =====
-- `discover_all` of node/src/discovery.rs: one card for each key, the registry's before the announced.
use lmao.Prelude.{String, Option, none, some, List, [], ◌∷◌, ◌==◌, if◌then◌else◌}
use lmao.Prelude.Dict
use lmao.Prelude.Dict.{Dict}
use lmao.Prelude.Result.{Result, ok, err}
use lmao.Transport.{Transport}
use lmao.Registry.{RegistryError}
use lmao.Node.Poll.{AgentCard}

abbrev pub or_else : Option AgentCard → Option AgentCard → Option AgentCard
or_else none b = b
or_else (some a) b = some a

-- The last of some cards that has a key.
abbrev pub last_with : String → List AgentCard → Option AgentCard
last_with k [] = none
last_with k (c ∷ cs) = or_else (last_with k cs) (if c.public_key == k then some c else none)

abbrev pub listed_cards : Option (Result RegistryError (List AgentCard)) → List AgentCard
listed_cards none = []
listed_cards (some (err e)) = []
listed_cards (some (ok cards)) = cards

-- The card of a key: the registry's, but for the node's own key; else the last that was announced.
abbrev pub preferred :
    String
    → Option (Result RegistryError (List AgentCard))
    → List AgentCard
    → String
    → Option AgentCard
preferred own listed heard k =
    or_else (if k == own then none else last_with k (listed_cards listed)) (last_with k heard)
