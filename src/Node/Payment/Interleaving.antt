-- ===== src/Node/Payment/Interleaving.antt =====
-- `verify_payment` of node/src/tasks/payment.rs in the two parts that its await of the chain separates,
-- and two verifications of which both begin before either ends.
use lmao.Prelude.{
  ◌<◌, ◌≡◌, refl, ap, ◌∙◌, String, Bool, true, false, none, some, arith, inl, inr, Bool-cases,
  Option-cases, eqb, eq_iff, if◌then◌else◌,
}
use lmao.Prelude.Result.{ok}
use lmao.Task.{Task}
use lmao.Node.Payment.{
  Chain, TransferDetails, PaymentConfig, PaymentState, mark_seen, is_seen, claimed_tx,
  check_payment, verify_payment, pays_us,
}

-- A verification that is over, or one that has found its hash unseen and asks the chain.
pub data Verification : Type 0 where
  decided : Bool → Verification
  asking : String → Verification

module _ {S E : Type 0} (chain : Chain S E) (lower : String → String) (cfg : PaymentConfig) where
  unfoldable pub begin : Task → PaymentState S → Verification
  begin task s = elim (claimed_tx task) [
    | none ↦ decided false
    | some tx_hash ↦ if is_seen tx_hash s then decided false else asking tx_hash
  ]

  unfoldable pub finish : Verification → Task → PaymentState S → Bool × PaymentState S
  finish (decided accepted) task s = (accepted, s)
  finish (asking tx_hash) task s = check_payment chain lower (some cfg) cfg tx_hash task s

  abbrev verify : Task → PaymentState S → Bool × PaymentState S
  verify = verify_payment chain lower (some cfg)

  verify_parts :
      (task : Task) (s : PaymentState S)
      → 0 < cfg.required_amount
      → verify task s ≡ finish (begin task s) task s
  unfolding verify_payment begin finish
  verify_parts task s required =
      let asks : eqb cfg.required_amount 0 ≡ false = ground (arith, required) in
      elim (Option-cases (claimed_tx task)) [
        | inl nothing ↦ rw (asks, nothing, verify_payment, begin) refl
        | inr (tx, claims) ↦ elim (Bool-cases (is_seen tx s)) [
          | inl seen ↦ rw (asks, claims, seen, verify_payment, begin) refl
          | inr unseen ↦ rw (asks, claims, unseen, verify_payment, begin) refl
        ]
      ]

  begin_unseen :
      (task : Task) (tx : String) (s : PaymentState S)
      → claimed_tx task ≡ some tx
      → is_seen tx s ≡ false
      → begin task s ≡ asking tx
  unfolding begin
  begin_unseen task tx s claims unseen = rw (claims, unseen, begin) refl

  module _ (tx : String) (details : TransferDetails)
      (confirms : (c : S) → (chain.verify_transfer tx c).0 ≡ ok details)
      (online : cfg.verify_on_chain ≡ true) (pays : pays_us lower cfg details ≡ true) where
    check_confirmed :
        (task : Task) (s : PaymentState S)
        → check_payment chain lower (some cfg) cfg tx task s
          ≡ (true, mark_seen tx (record s { chain = (chain.verify_transfer tx s.chain).1 }))
    unfolding check_payment
    check_confirmed task s = rw (online, confirms s.chain, pays, check_payment) refl

    is_seen-mark_seen : (s : PaymentState S) → is_seen tx (mark_seen tx s) ≡ true
    is_seen-mark_seen s = elim (Bool-cases (is_seen tx s)) [
      | inl seen ↦ rw seen seen
      | inr unseen ↦ rw unseen (ground (arith, eq_iff tx tx))
    ]

    begin_seen :
        (task : Task) (s : PaymentState S)
        → claimed_tx task ≡ some tx
        → is_seen tx s ≡ true
        → begin task s ≡ decided false
    unfolding begin
    begin_seen task s claims seen = rw (claims, seen, begin) refl

    -- Two tasks that claim one unseen transaction, which the chain confirms whenever it is asked:
    -- one after the other, the second is rejected; if both begin before either ends, both are
    -- accepted. A payment is required, of no more than was transferred.
    pub overlap_replays :
        (t u : Task) (s : PaymentState S)
        → 0 < cfg.required_amount
        → claimed_tx t ≡ some tx
        → claimed_tx u ≡ some tx
        → is_seen tx s ≡ false
        → ((verify t s).0 ≡ true)
          × ((verify u (verify t s).1).0 ≡ false)
          × ((finish (begin t s) t s).0 ≡ true)
          × ((finish (begin u s) u (finish (begin t s) t s).1).0 ≡ true)
    unfolding finish
    overlap_replays t u s required t_claims u_claims unseen =
        let accepts : (v : Task) (r : PaymentState S) → (finish (asking tx) v r).0 ≡ true =
          λ v r. ap (λ p. p.0) (check_confirmed v r) in
        let first : finish (begin t s) t s ≡ finish (asking tx) t s =
          ap (λ v. finish v t s) (begin_unseen t tx s t_claims unseen) in
        let accepted = ap (λ p. p.0) first ∙ accepts t s in
        let marked : is_seen tx (verify t s).1 ≡ true =
          ap (λ p. is_seen tx p.1) (verify_parts t s required ∙ (first ∙ check_confirmed t s))
          ∙ is_seen-mark_seen (record s { chain = (chain.verify_transfer tx s.chain).1 }) in
        (
          ap (λ p. p.0) (verify_parts t s required) ∙ accepted,
          ap (λ p. p.0) (verify_parts u (verify t s).1 required)
              ∙ ap (λ v. (finish v u (verify t s).1).0)
                  (begin_seen u (verify t s).1 u_claims marked),
          accepted,
          ap (λ v. (finish v u (finish (begin t s) t s).1).0) (begin_unseen u tx s u_claims unseen)
              ∙ accepts u (finish (begin t s) t s).1,
        )
