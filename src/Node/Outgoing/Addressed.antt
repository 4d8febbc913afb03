-- ===== src/Node/Outgoing/Addressed.antt =====
-- Where the messages of node/src/tasks/send.rs go.
use lmao.Prelude.{ℕ, ◌<◌, ◌≡◌, String, Option, List}
use lmao.Prelude.Dict
use lmao.Prelude.Result.{Result, ok}
use lmao.Transport.{Transport}
use lmao.Sds.State.{Env}
use lmao.Sds.Send.{World}
use lmao.Sds.Send.Reliable.{Calls, again}
use lmao.Retry
use lmao.Retry.{RetryConfig, Outcome, sent}
use lmao.Task
use lmao.Task.{Task}
use lmao.Node.Payment.{Chain, PaymentConfig}
use lmao.Node.Payload.{PayloadApi}
use lmao.Node.Session.{Session}
use lmao.Node.Outgoing.{Outbox}

-- The later calls are the earlier ones and others of one topic, one at least after a success.
abbrev OnlyTo : String → List String → Type 0 → List String → Type 0
OnlyTo topic before Success after = (n : ℕ) × (after ≡ again n topic before) × (Success → 0 < n)

abbrev IsOk : {E A : Type 0} → Result E A → Type 0
IsOk r = (a : _) × (r ≡ ok a)

module _ {F T R C S : Type 0} (env : Env F) (tr : Transport T R) (chain : Chain C String)
    (lower : String → String) (payment : Option PaymentConfig) (api : PayloadApi S)
    (retry_config : Option RetryConfig) (draw : ℕ → ℕ) where
  abbrev topics : World F (Calls × T) → List String
  topics w = w.transport.0.publishes

  abbrev published : Outbox F (Calls × T) C S → List String
  published o = topics o.retry.world

  abbrev IsSent : {E A : Type 0} → Outcome E A → Type 0
  IsSent r = (a : _) × (r ≡ sent a)
