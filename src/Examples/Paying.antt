-- ===== src/Examples/Paying.antt =====
-- Payments on a chain with one transfer at concrete inputs.
use lmao.Prelude.{
  ◌%◌, ◌≡◌, refl, String, true, false, Option, none, some, List, [], ◌∷◌, ◌==◌, if◌then◌else◌,
  arith,
}
use lmao.Prelude.Result.{Result, ok}
use lmao.Prelude.Slices.{strip_prefix, trim_0x, hex_digits, from_hex_u64}
use lmao.Prelude.Words.{u64_mod}
use lmao.Task
use lmao.Task.{Task}
use lmao.Node.Payment.{PaymentConfig, PaymentState, verify_payment, check_payment}
use lmao.Execution.StatusNetwork.{
  JsonApi, Params, StatusNetworkBackend, transfer_event_topic, amount_of, parse_transfer_log,
  details_of, rpc_call, verify_transfer, sepolia, chain,
}
use lmao.Execution.StatusNetwork.Amount.{IsHex, value, amount_of-value}
use lmao.Execution.StatusNetwork.Prefix.{verify_payment-two_spellings}

-- What the node answers to every request: the receipt of a transfer of 5.
data Json : Type 0 where
  response : Json
  receipt : Json
  logs : Json
  log : Json
  topics : Json
  word : String → Json

abbrev get : String → Json → Option Json
get key response = if key == "result" then some receipt else none
get key receipt =
    if key == "status" then some (word "0x1") else if key == "logs" then some logs else none
get key log =
    if key == "topics" then some topics else if key == "data" then some (word "0x05") else none
get key _ = none

abbrev as_str : Json → Option String
as_str (word s) = some s
as_str _ = none

abbrev as_array : Json → Option (List Json)
as_array logs = some (log ∷ [])
as_array topics = some (word transfer_event_topic ∷ word "0xaa" ∷ word "0xbb" ∷ [])
as_array _ = none

abbrev json : JsonApi Json
json = record {
  get = get;
  as_str = as_str;
  as_array = as_array;
  is_null = λ v. false;
  display = λ v. "";
}

abbrev post : String → Params → Unit {0} → Result String Json × Unit {0}
post method params w = (ok response, w)

abbrev any_token : StatusNetworkBackend
any_token = sepolia "0xcc" ""

abbrev asks_3 : PaymentConfig
asks_3 = record {
  required_amount = 3;
  auto_pay = false;
  auto_pay_amount = 0;
  verify_on_chain = true;
  receiving_account = "";
}

abbrev paid_by : String → Task
paid_by tx = record (Task.new "t9" "02aa" "02me" "hello") { payment_tx = some tx }

abbrev unpaid : PaymentState Unit
unpaid = record { chain = tt; seen_tx_hashes = [] }

verify_payment-two_spellings_example :
    let verify =
      verify_payment
        (chain json post (λ s. s) (λ s. 0) (λ n. "") (λ h n cs t. "") any_token)
        (λ s. s)
        (some asks_3) in
    (verify (paid_by "ab") (verify (paid_by "0xab") unpaid).1).0 ≡ true
unfolding strip_prefix trim_0x hex_digits from_hex_u64 verify_payment check_payment verify_transfer
    rpc_call details_of parse_transfer_log amount_of
verify_payment-two_spellings_example =
    verify_payment-two_spellings json post (λ s. s) (λ s. 0) (λ n. "") (λ h n cs t. "") any_token
      asks_3 "ab" (paid_by "0xab") (paid_by "ab") unpaid (λ method params w. refl) refl
      (omega arith) refl refl refl refl refl

-- 2 ^ 64 and 5.
abbrev beyond : String
beyond = "10000000000000005"

beyond-IsHex : IsHex beyond
beyond-IsHex = (
  (1, refl),
  (
    (0, refl),
    (
      (0, refl),
      (
        (0, refl),
        (
          (0, refl),
          (
            (0, refl),
            (
              (0, refl),
              (
                (0, refl),
                (
                  (0, refl),
                  (
                    (0, refl),
                    (
                      (0, refl),
                      (
                        (0, refl),
                        ((0, refl), ((0, refl), ((0, refl), ((0, refl), ((5, refl), tt))))),
                      ),
                    ),
                  ),
                ),
              ),
            ),
          ),
        ),
      ),
    ),
  ),
)

amount_of-value_example : amount_of beyond ≡ value 0 beyond % u64_mod
amount_of-value_example = amount_of-value beyond beyond-IsHex

amount_is_cut : amount_of beyond ≡ 5
unfolding amount_of from_hex_u64 hex_digits
amount_is_cut = refl
