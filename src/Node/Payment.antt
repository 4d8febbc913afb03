-- ===== src/Node/Payment.antt =====
-- crates/logos-messaging-a2a-node/src/payment.rs and tasks/payment.rs: paying for a task that is sent
-- and asking for payment of one that arrives. The chain is the interface `Chain` over any state;
-- `lower` is `to_lowercase`. Log lines are not modelled.
pub mod Replay
pub mod Interleaving
use lmao.Prelude.{
  ℕ, String, Bool, true, false, not, ◌&&◌, Option, none, some, List, [], ◌∷◌, any, ltb, leb, eqb,
  ◌==◌, if◌then◌else◌,
}
use lmao.Prelude.Result.{Result, ok, err}
use lmao.Task.{Task}

pub record TransferDetails : Type 0 where
  pub from : String
  pub to : String
  pub amount : ℕ
  pub block_number : ℕ

-- The operations of the execution backend that payment uses.
pub record Chain (S E : Type 0) : Type 0 where
  pub pay : String → ℕ → S → Result E String × S
  pub verify_transfer : String → S → Result E TransferDetails × S

pub record PaymentConfig : Type 0 where
  pub required_amount : ℕ
  pub auto_pay : Bool
  pub auto_pay_amount : ℕ
  pub verify_on_chain : Bool
  pub receiving_account : String

pub record PaymentState (S : Type 0) : Type 0 where
  pub chain : S
  pub seen_tx_hashes : List String

-- `HashSet::insert`
abbrev pub mark_seen : {S : Type 0} → String → PaymentState S → PaymentState S
mark_seen tx s = record s {
  seen_tx_hashes =
      if any (λ t. t == tx) s.seen_tx_hashes then s.seen_tx_hashes else tx ∷ s.seen_tx_hashes;
}

abbrev pub is_seen : {S : Type 0} → String → PaymentState S → Bool
is_seen tx s = any (λ t. t == tx) s.seen_tx_hashes

-- The hash of a task that claims a payment; an empty one does not count.
abbrev pub claimed_tx : Task → Option String
claimed_tx task = elim task.payment_tx [
  | none ↦ none
  | some tx ↦ if tx == "" then none else some tx
]

abbrev pub claims_enough : ℕ → Option ℕ → Bool
claims_enough required none = false
claims_enough required (some amount) = leb required amount

abbrev pub pays_us : (String → String) → PaymentConfig → TransferDetails → Bool
pays_us lower cfg details =
    if ltb details.amount cfg.required_amount
    then false
    else if not (cfg.receiving_account == "")
        && not (lower details.to == lower cfg.receiving_account)
    then false
    else true

module _ {S E : Type 0} (chain : Chain S E) (lower : String → String)
    (config : Option PaymentConfig) where
  unfoldable pub maybe_auto_pay : Task → PaymentState S → Result E Task × PaymentState S
  maybe_auto_pay task s = elim config [
    | none ↦ (ok task, s)
    | some cfg ↦
        let (r, chain') = chain.pay task.to cfg.auto_pay_amount s.chain in
        if cfg.auto_pay && ltb 0 cfg.auto_pay_amount
        then elim r [
          | err e ↦ (err e, record s { chain = chain' })
          | ok tx_hash ↦ (
            ok (record task {
              payment_tx = some tx_hash;
              payment_amount = some cfg.auto_pay_amount;
            }),
            record s { chain = chain' },
          )
        ]
        else (ok task, s)
  ]

  -- The checks of a hash that is claimed and not yet seen.
  unfoldable pub check_payment :
      PaymentConfig → String → Task → PaymentState S → Bool × PaymentState S
  check_payment cfg tx_hash task s =
      let (r, chain') = chain.verify_transfer tx_hash s.chain in
      let s' : PaymentState S = record s { chain = chain' } in
      if not cfg.verify_on_chain
      then (if claims_enough cfg.required_amount task.payment_amount
          then (true, mark_seen tx_hash s)
          else (false, s))
      else elim r [
        | err e ↦ (false, s')
        | ok details ↦
            if pays_us lower cfg details then (true, mark_seen tx_hash s') else (false, s')
      ]

  unfoldable pub verify_payment : Task → PaymentState S → Bool × PaymentState S
  verify_payment task s = elim config [
    | none ↦ (true, s)
    | some cfg ↦ if eqb cfg.required_amount 0 then (true, s) else elim (claimed_tx task) [
      | none ↦ (false, s)
      | some tx_hash ↦ if is_seen tx_hash s then (false, s) else check_payment cfg tx_hash task s
    ]
  ]

  -- The loop of `poll_tasks` that keeps the tasks that are paid for.
  unfoldable pub verify_all : List Task → PaymentState S → List Task × PaymentState S
  verify_all [] s = ([], s)
  verify_all (task ∷ tasks) s =
      let (paid, s') = verify_payment task s in
      let (rest, s'') = verify_all tasks s' in ((if paid then task ∷ rest else rest), s'')
