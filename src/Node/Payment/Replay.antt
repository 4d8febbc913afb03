-- ===== src/Node/Payment/Replay.antt =====
-- Payments of node/src/tasks/payment.rs: no transaction pays for two tasks, and what an accepted
-- one has shown.
use lmao.Prelude.{
  ℕ, ◌<◌, ◌≤◌, ◌≡◌, ◌≢◌, refl, ap, sym, subst, ◌∙◌, ◌⊎◌, String, Bool, true, false, Option, none,
  some, List, [], ◌∷◌, any, arith, inl, inr, Bool-cases, Option-cases, eqb, ◌==◌, eq_iff,
}
use lmao.Prelude.Result.{ok, Result-cases}
use lmao.Task.{Task}
use lmao.Node.Payment.{
  Chain, TransferDetails, PaymentConfig, PaymentState, is_seen, claimed_tx, check_payment,
  verify_payment, verify_all, claims_enough, pays_us,
}

module _ {S E : Type 0} (chain : Chain S E) (lower : String → String) (cfg : PaymentConfig) where
  abbrev verify : Task → PaymentState S → Bool × PaymentState S
  verify = verify_payment chain lower (some cfg)

  -- What the chain, or the task's own word, says of an accepted payment.
  abbrev pub Shown : String → Task → PaymentState S → Type 0
  Shown tx task s =
      (cfg.verify_on_chain ≡ true
        → (details : TransferDetails) × ((chain.verify_transfer tx s.chain).0 ≡ ok details)
          × (cfg.required_amount ≤ details.amount)
          × (cfg.receiving_account ≢ "" → lower details.to ≡ lower cfg.receiving_account))
      × (cfg.verify_on_chain ≡ false
          → (amount : ℕ) × (task.payment_amount ≡ some amount) × (cfg.required_amount ≤ amount))

  -- A verification accepts with a new hash that it marks, or rejects and marks none.
  abbrev pub Verified : Task → PaymentState S → Bool × PaymentState S → Type 0
  Verified task s (accepted, s') =
      ((accepted ≡ false) × (s'.seen_tx_hashes ≡ s.seen_tx_hashes))
      ⊎ ((accepted ≡ true)
          × (tx : String) × (claimed_tx task ≡ some tx)
          × (is_seen tx s ≡ false)
          × (s'.seen_tx_hashes ≡ tx ∷ s.seen_tx_hashes)
          × Shown tx task s)

  pays_us_sound :
      (details : TransferDetails)
      → pays_us lower cfg details ≡ true
      → (cfg.required_amount ≤ details.amount)
        × (cfg.receiving_account ≢ "" → lower details.to ≡ lower cfg.receiving_account)
  pays_us_sound details h = (
    ground (arith, h),
    λ ne. ground (
      arith,
      h,
      ne,
      eq_iff cfg.receiving_account "",
      eq_iff (lower details.to) (lower cfg.receiving_account),
    ),
  )

  claims_enough_sound :
      (claimed : Option ℕ)
      → claims_enough cfg.required_amount claimed ≡ true
      → (amount : ℕ) × (claimed ≡ some amount) × (cfg.required_amount ≤ amount)
  claims_enough_sound none h = ground arith
  claims_enough_sound (some amount) h = (amount, refl, ground (arith, h))

  check_payment-Verified :
      (tx : String) (task : Task) (s : PaymentState S)
      → claimed_tx task ≡ some tx
      → is_seen tx s ≡ false
      → Verified task s (check_payment chain lower (some cfg) cfg tx task s)
  unfolding check_payment
  check_payment-Verified tx task s claims unseen = elim (Bool-cases cfg.verify_on_chain) [
    | inr offline ↦ elim (Bool-cases (claims_enough cfg.required_amount task.payment_amount)) [
      | inl enough ↦
          rw (offline, enough, unseen, check_payment)
            (inr (
              refl,
              tx,
              claims,
              unseen,
              refl,
              (λ on. cc, λ _. claims_enough_sound task.payment_amount enough),
            ))
      | inr short ↦ rw (offline, short, check_payment) (inl (refl, refl))
    ]
    | inl online ↦ elim (Result-cases (chain.verify_transfer tx s.chain).0) [
      | inr (e, failed) ↦ rw (online, failed, check_payment) (inl (refl, refl))
      | inl (details, found) ↦ elim (Bool-cases (pays_us lower cfg details)) [
        | inl pays ↦
            let (enough, ours) = pays_us_sound details pays in
            rw (online, found, pays, unseen, check_payment)
              (inr
                (refl, tx, claims, unseen, refl, (λ _. (details, found, enough, ours), λ off. cc)))
        | inr other ↦ rw (online, found, other, check_payment) (inl (refl, refl))
      ]
    ]
  ]

  -- Where a payment is required, a task is accepted only with a hash that was not seen, which is
  -- then marked, and with the amount that is required: on the chain, to the receiving account if
  -- one is set, or by the task's word if the chain is not asked. A task that is rejected marks none.
  verify_payment-Verified :
      (task : Task) (s : PaymentState S)
      → 0 < cfg.required_amount
      → Verified task s (verify_payment chain lower (some cfg) task s)
  unfolding verify_payment
  verify_payment-Verified task s required =
      let asks : eqb cfg.required_amount 0 ≡ false = ground (arith, required) in
      elim (Option-cases (claimed_tx task)) [
        | inl nothing ↦ rw (asks, nothing, verify_payment) (inl (refl, refl))
        | inr (tx, claims) ↦ elim (Bool-cases (is_seen tx s)) [
          | inl seen ↦ rw (asks, claims, seen, verify_payment) (inl (refl, refl))
          | inr unseen ↦
              let checks : verify task s ≡ check_payment chain lower (some cfg) cfg tx task s =
                rw (asks, claims, unseen, verify_payment) refl in
              subst (Verified task s) (sym checks) (check_payment-Verified tx task s claims unseen)
        ]
      ]

  -- No task of the list claims the hash.
  abbrev pub NoneClaims : String → List Task → Type 0
  NoneClaims tx [] = Unit
  NoneClaims tx (t ∷ ts) = (claimed_tx t ≢ some tx) × NoneClaims tx ts

  -- Every task claims a hash, and no two the same.
  abbrev pub PaidOnce : List Task → Type 0
  PaidOnce [] = Unit
  PaidOnce (t ∷ ts) = ((tx : String) × (claimed_tx t ≡ some tx) × NoneClaims tx ts) × PaidOnce ts

  seen_stays :
      (task : Task) (s : PaymentState S) (tx : String)
      → 0 < cfg.required_amount
      → is_seen tx s ≡ true
      → is_seen tx (verify task s).1 ≡ true
  seen_stays task s tx required seen = elim (verify_payment-Verified task s required) [
    | inl (_, same) ↦ ap (any (λ t. t == tx)) same ∙ seen
    | inr (_, new_tx, _, _, marked, _) ↦ ap (any (λ t. t == tx)) marked ∙ ground (arith, seen)
  ]

  verify_all_cases :
      (task : Task) (tasks : List Task) (s : PaymentState S)
      → let rest = (verify_all chain lower (some cfg) tasks (verify task s).1).0 in
        (((verify task s).0 ≡ true)
          × ((verify_all chain lower (some cfg) (task ∷ tasks) s).0 ≡ task ∷ rest))
        ⊎ ((verify_all chain lower (some cfg) (task ∷ tasks) s).0 ≡ rest)
  unfolding verify_all
  verify_all_cases task tasks s = elim (Bool-cases (verify task s).0) [
    | inl paid ↦ inl (paid, rw (paid, verify_all) refl)
    | inr unpaid ↦ inr (rw (unpaid, verify_all) refl)
  ]

  some_tx : (a b : String) → some a ≡ some b → a ≡ b
  some_tx a b e = cc e

  seen_is_spent :
      (tx : String) (tasks : List Task) (s : PaymentState S)
      → 0 < cfg.required_amount
      → is_seen tx s ≡ true
      → NoneClaims tx (verify_all chain lower (some cfg) tasks s).0
  unfolding verify_all
  seen_is_spent tx [] s required seen = tt
  seen_is_spent tx (task ∷ tasks) s required seen =
      let rest =
        seen_is_spent tx tasks (verify task s).1 required (seen_stays task s tx required seen) in
      elim (verify_all_cases task tasks s) [
        | inr dropped ↦ subst (NoneClaims tx) (sym dropped) rest
        | inl (paid, kept) ↦ elim (verify_payment-Verified task s required) [
          | inl (rejected, _) ↦ cc
          | inr (_, own, claims, unseen, _, _) ↦
              let other : claimed_tx task ≢ some tx =
                λ same. let e = some_tx own tx (sym claims ∙ same) in cc (e, seen, unseen) in
              subst (NoneClaims tx) (sym kept) (other, rest)
        ]
      ]

  -- Where a payment is required, the tasks that `poll_tasks` keeps all claim a transaction, and no
  -- two of them the same one.
  pub verify_all-PaidOnce :
      (tasks : List Task) (s : PaymentState S)
      → 0 < cfg.required_amount
      → PaidOnce (verify_all chain lower (some cfg) tasks s).0
  unfolding verify_all
  verify_all-PaidOnce [] s required = tt
  verify_all-PaidOnce (task ∷ tasks) s required =
      let rest = verify_all-PaidOnce tasks (verify task s).1 required in
      elim (verify_all_cases task tasks s) [
        | inr dropped ↦ subst PaidOnce (sym dropped) rest
        | inl (paid, kept) ↦ elim (verify_payment-Verified task s required) [
          | inl (rejected, _) ↦ cc
          | inr (_, tx, claims, _, marked, _) ↦
              let spent : is_seen tx (verify task s).1 ≡ true =
                ap (any (λ t. t == tx)) marked ∙ ground (arith, eq_iff tx tx) in
              subst PaidOnce (sym kept)
                ((tx, claims, seen_is_spent tx tasks (verify task s).1 required spent), rest)
        ]
      ]
