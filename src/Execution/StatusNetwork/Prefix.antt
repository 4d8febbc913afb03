-- ===== src/Execution/StatusNetwork/Prefix.antt =====
-- Payments that execution/src/status_network.rs verifies for node/src/tasks/payment.rs: the hash of a
-- transaction has two spellings.
use lmao.Prelude.{
  ℕ, ◌<◌, ◌≡◌, refl, sym, ap, ◌∙◌, String, Bool, true, false, none, some, List, eqb, ◌==◌, eq_iff,
  Bool-cases, inl, inr, arith,
}
use lmao.Prelude.Keyed.{none_not_some}
use lmao.Prelude.Result.{Result, ok, Result-cases}
use lmao.Prelude.Slices.{strip_prefix, strip_prefix-concat}
use lmao.Transport.{concat}
use lmao.Sds.Message.{Bytes}
use lmao.Task.{Task}
use lmao.Node.Payment.{
  Chain, TransferDetails, PaymentConfig, PaymentState, mark_seen, is_seen, claimed_tx, pays_us,
  check_payment, verify_payment,
}
use lmao.Execution.StatusNetwork.{
  ExecutionError, JsonApi, Params, StatusNetworkBackend, normalised, rpc_call, verify_transfer,
  chain,
}

true_not_false : true ≡ false → ⊥
true_not_false h = cc h

normalised-prefix :
    (tx : String) → strip_prefix "0x" tx ≡ none → normalised tx ≡ normalised (concat "0x" tx)
normalised-prefix tx bare = rw (normalised, bare, strip_prefix-concat "0x" tx) refl

spellings_differ : (tx : String) → strip_prefix "0x" tx ≡ none → (concat "0x" tx == tx) ≡ false
spellings_differ tx bare = elim (Bool-cases (concat "0x" tx == tx)) [
  | inr other ↦ other
  | inl same ↦
      let e = (eq_iff (concat "0x" tx) tx).0 same in
      absurd
        (none_not_some tx (sym bare ∙ ap (strip_prefix "0x") (sym e) ∙ strip_prefix-concat "0x" tx))
]

-- A verification on a chain, step by step.
module _ {S E : Type 0} (on : Chain S E) (lower : String → String) (cfg : PaymentConfig)
    (on_chain : cfg.verify_on_chain ≡ true) (required : 0 < cfg.required_amount) where
  verify_payment_unseen :
      (tx : String) (task : Task) (s : PaymentState S)
      → claimed_tx task ≡ some tx
      → is_seen tx s ≡ false
      → verify_payment on lower (some cfg) task s ≡ check_payment on lower (some cfg) cfg tx task s
  unfolding verify_payment
  verify_payment_unseen tx task s claims unseen =
      let some_due : eqb cfg.required_amount 0 ≡ false = ground (arith, required) in
      rw (verify_payment, some_due, claims, unseen) refl

  check_payment_good :
      (tx : String) (task : Task) (s : PaymentState S) (details : TransferDetails)
      → (on.verify_transfer tx s.chain).0 ≡ ok details
      → pays_us lower cfg details ≡ true
      → check_payment on lower (some cfg) cfg tx task s
        ≡ (true, mark_seen tx (record s { chain = (on.verify_transfer tx s.chain).1 }))
  unfolding check_payment
  check_payment_good tx task s details found good = rw (check_payment, on_chain, found, good) refl

  accepted_inv :
      (tx : String) (task : Task) (s : PaymentState S)
      → claimed_tx task ≡ some tx
      → (verify_payment on lower (some cfg) task s).0 ≡ true
      → (is_seen tx s ≡ false)
        × (details : TransferDetails) × ((on.verify_transfer tx s.chain).0 ≡ ok details)
        × (pays_us lower cfg details ≡ true)
  unfolding verify_payment check_payment
  accepted_inv tx task s claims accepted =
      let some_due : eqb cfg.required_amount 0 ≡ false = ground (arith, required) in
      elim (Bool-cases (is_seen tx s)) [
        | inl seen ↦
            let rejects : (verify_payment on lower (some cfg) task s).0 ≡ false =
              rw (verify_payment, some_due, claims, seen) refl in
            absurd (true_not_false (sym accepted ∙ rejects))
        | inr unseen ↦
            let step = verify_payment_unseen tx task s claims unseen in
            let accepted' : (check_payment on lower (some cfg) cfg tx task s).0 ≡ true =
              ap (λ (x : Bool × PaymentState S). x.0) (sym step) ∙ accepted in
            elim (Result-cases (on.verify_transfer tx s.chain).0) [
              | inr (e, failed) ↦
                  let rejects : (check_payment on lower (some cfg) cfg tx task s).0 ≡ false =
                    rw (check_payment, on_chain, failed) refl in
                  absurd (true_not_false (sym accepted' ∙ rejects))
              | inl (details, found) ↦ elim (Bool-cases (pays_us lower cfg details)) [
                | inl good ↦ (unseen, details, found, good)
                | inr bad ↦
                    let rejects : (check_payment on lower (some cfg) cfg tx task s).0 ≡ false =
                      rw (check_payment, on_chain, found, bad) refl in
                    absurd (true_not_false (sym accepted' ∙ rejects))
              ]
            ]
      ]

module _ {V W : Type 0} (json : JsonApi V) (post : String → Params → W → Result String V × W)
    (lower : String → String) (default_hasher : String → ℕ) (decimal : ℕ → String)
    (encode_register : Bytes → String → List String → String → String)
    (backend : StatusNetworkBackend) where
  verify_transfer-prefix :
      (tx : String) (w : W)
      → strip_prefix "0x" tx ≡ none
      → verify_transfer json post lower backend tx w
        ≡ verify_transfer json post lower backend (concat "0x" tx) w
  unfolding verify_transfer
  verify_transfer-prefix tx w bare = rw (verify_transfer, normalised-prefix tx bare) refl

  -- One transfer pays for two tasks: when the node requires payment on this chain and accepts a task
  -- whose payment is a hash with the prefix 0x, it then accepts a task whose payment is the same hash
  -- without the prefix, unless that spelling was seen before, while the chain stays as it is.
  pub verify_payment-two_spellings :
      (cfg : PaymentConfig) (tx : String) (first second : Task) (s : PaymentState W)
      → let verify =
          verify_payment
            (chain json post lower default_hasher decimal encode_register backend)
            lower
            (some cfg) in
        ((method : String) (params : Params) (w : W) → (post method params w).1 ≡ w)
        → cfg.verify_on_chain ≡ true
        → 0 < cfg.required_amount
        → strip_prefix "0x" tx ≡ none
        → claimed_tx first ≡ some (concat "0x" tx)
        → claimed_tx second ≡ some tx
        → is_seen tx s ≡ false
        → (verify first s).0 ≡ true
        → (verify second (verify first s).1).0 ≡ true
  unfolding verify_transfer rpc_call
  verify_payment-two_spellings cfg tx first second s still on_chain required bare claims claims'
        unseen' accepted =
      let on = chain json post lower default_hasher decimal encode_register backend in
      let long = concat "0x" tx in
      let (unseen, details, found, good) =
        accepted_inv on lower cfg on_chain required long first s claims accepted in
      let s1 : PaymentState W =
        mark_seen long (record s { chain = (on.verify_transfer long s.chain).1 }) in
      let done : verify_payment on lower (some cfg) first s ≡ (true, s1) =
        verify_payment_unseen on lower cfg on_chain required long first s claims unseen
        ∙ check_payment_good on lower cfg on_chain required long first s details found good in
      let same_chain : s1.chain ≡ s.chain =
        still "eth_getTransactionReceipt" (Params.transaction (normalised long)) s.chain in
      let not_yet : is_seen tx s1 ≡ false = rw unseen (rw (spellings_differ tx bare) unseen') in
      let found' : (on.verify_transfer tx s1.chain).0 ≡ ok details =
        ap (λ (w : W). (on.verify_transfer tx w).0) same_chain
        ∙ ap (λ (x : Result ExecutionError TransferDetails × W). x.0)
            (verify_transfer-prefix tx s.chain bare)
        ∙ found in
      let again : verify_payment on lower (some cfg) second s1
          ≡ (true, mark_seen tx (record s1 { chain = (on.verify_transfer tx s1.chain).1 })) =
        verify_payment_unseen on lower cfg on_chain required tx second s1 claims' not_yet
        ∙ check_payment_good on lower cfg on_chain required tx second s1 details found' good in
      ap (λ (x : Bool × PaymentState W). (verify_payment on lower (some cfg) second x.1).0) done
      ∙ ap (λ (x : Bool × PaymentState W). x.0) again
