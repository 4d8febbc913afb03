-- ===== src/Execution/StatusNetwork.antt =====
-- crates/logos-messaging-a2a-execution/src/status_network.rs, with the errors of src/lib.rs: payments
-- and their verification by the JSON-RPC of an EVM chain. JSON is the interface `JsonApi`, the exchange
-- by HTTP is `post`, `lower` is `to_lowercase`; the texts that are cut are hexadecimal.
pub mod Amount
pub mod Prefix
use lmao.Prelude.{
  ℕ, zero, suc, ◌-◌, ◌/◌, ◌%◌, String, Bool, true, false, ◌&&◌, ◌||◌, Option, none, some, List, [],
  ◌∷◌, ◌++◌, ltb, ◌==◌, if◌then◌else◌,
}
use lmao.Prelude.Result.{Result, ok, err}
use lmao.Prelude.Slices.{
  strip_prefix, text_length, last_chars, text_drop, text_take, trim_0x, from_hex_u64,
}
use lmao.Prelude.Words.{le_bytes}
use lmao.Transport.{concat}
use lmao.Sds.Message.{Bytes}
use lmao.Node.Poll.{AgentCard}
use lmao.Node.Payment.{TransferDetails, Chain}

pub data ExecutionError : Type 0 where
  rpc : String → ExecutionError
  other : String → ExecutionError

-- `serde_json::Value` and its methods.
pub record JsonApi (V : Type 0) : Type 0 where
  pub get : String → V → Option V
  pub as_str : V → Option String
  pub as_array : V → Option (List V)
  pub is_null : V → Bool
  pub display : V → String

-- The parameters of a call.
pub data Params : Type 0 where
  nothing : Params
  transaction : String → Params
  latest_call : String → String → Params

pub record StatusNetworkBackend : Type 0 where
  pub rpc_url : String
  pub registry_contract : String
  pub token_contract : String

abbrev default_rpc_url : String
default_rpc_url = "https://public.sepolia.rpc.status.network"

abbrev pub new : String → String → String → StatusNetworkBackend
new rpc_url registry_contract token_contract = record {
  rpc_url = rpc_url;
  registry_contract = registry_contract;
  token_contract = token_contract;
}

abbrev pub sepolia : String → String → StatusNetworkBackend
sepolia registry_contract token_contract = new default_rpc_url registry_contract token_contract

abbrev pub transfer_event_topic : String
transfer_event_topic = "0xddf252ad1be2c89b69c2b068fc378daa952ba7f163c4a11628f55a4df523b3ef"

-- `unwrap_or`
abbrev pub or_text : String → Option String → String
or_text default none = default
or_text default (some s) = s

abbrev or_zero : Option ℕ → ℕ
or_zero none = 0
or_zero (some n) = n

-- The last 16 digits of a longer number.
unfoldable pub amount_of : String → ℕ
amount_of data_hex =
    if ltb 16 (text_length data_hex)
    then or_zero (from_hex_u64 (last_chars 16 data_hex))
    else or_zero (from_hex_u64 data_hex)

-- The last 20 bytes of a word.
abbrev pub address_of : String → String
address_of topic = concat "0x" (last_chars 40 topic)

abbrev pub normalised : String → String
normalised tx_hash = elim (strip_prefix "0x" tx_hash) [
  | none ↦ concat "0x" tx_hash
  | some _ ↦ tx_hash
]

module _ {V : Type 0} (json : JsonApi V) where
  abbrev pub text_of : String → Option V → String
  text_of default none = default
  text_of default (some v) = or_text default (json.as_str v)

  abbrev items_of : Option V → List V
  items_of none = []
  items_of (some v) = elim (json.as_array v) [ none ↦ [] | some vs ↦ vs ]

  module _ (lower : String → String) (token_contract : String) where
    abbrev pub is_from_token : V → Bool
    is_from_token log =
        (token_contract == "")
        || (lower (text_of "" (json.get "address" log)) == lower token_contract)

    abbrev transfer_of : V → List V → Option (String × String × ℕ)
    transfer_of log (event_sig ∷ from ∷ to ∷ rest) =
        if (text_of "" (some event_sig) == transfer_event_topic) && is_from_token log
        then some (
          address_of (text_of "0x0" (some from)),
          address_of (text_of "0x0" (some to)),
          amount_of (trim_0x (text_of "0x0" (json.get "data" log))),
        )
        else none
    transfer_of log _ = none

    unfoldable pub parse_transfer_log : List V → Result ExecutionError (String × String × ℕ)
    parse_transfer_log [] = err (other "No Transfer event found in transaction logs")
    parse_transfer_log (log ∷ logs) =
        let rest = parse_transfer_log logs in
        elim (transfer_of log (items_of (json.get "topics" log))) [
          | none ↦ rest
          | some transfer ↦ ok transfer
        ]

    abbrev with_block :
        ℕ → Result ExecutionError (String × String × ℕ) → Result ExecutionError TransferDetails
    with_block block_number (err e) = err e
    with_block block_number (ok (from, to, amount)) =
        ok (record { from = from; to = to; amount = amount; block_number = block_number })

    -- What `verify_transfer` makes of a receipt.
    unfoldable pub details_of : String → V → Result ExecutionError TransferDetails
    details_of tx_hash receipt =
        let status = text_of "0x0" (json.get "status" receipt) in
        let block_hex = text_of "0x0" (json.get "blockNumber" receipt) in
        let block_number = or_zero (from_hex_u64 (trim_0x block_hex)) in
        let logs = items_of (json.get "logs" receipt) in
        if json.is_null receipt
        then err (other (concat "Transaction " (concat tx_hash " not found (not mined yet?)")))
        else if status == "0x1"
        then with_block block_number (parse_transfer_log logs)
        else err (
            other (
              concat "Transaction "
                (concat tx_hash (concat " failed (status: " (concat status ")")))))

  abbrev result_of : V → Result ExecutionError V
  result_of resp = elim (json.get "error" resp) [
    | some error ↦ err (rpc (json.display error))
    | none ↦ elim (json.get "result" resp) [
      | none ↦ err (rpc "Missing result in RPC response")
      | some result ↦ ok result
    ]
  ]

-- `post` sends a call of a method with its parameters to the node, in the world `W`.
module _ {V W : Type 0} (json : JsonApi V) (post : String → Params → W → Result String V × W)
    (lower : String → String) (backend : StatusNetworkBackend) where
  abbrev answered : Result String V → Result ExecutionError V
  answered (err e) = err (rpc e)
  answered (ok resp) = result_of json resp

  unfoldable pub rpc_call : String → Params → W → Result ExecutionError V × W
  rpc_call method params w = let (r, w') = post method params w in (answered r, w')

  abbrev verified : String → Result ExecutionError V → Result ExecutionError TransferDetails
  verified tx_hash (err e) = err e
  verified tx_hash (ok receipt) = details_of json lower backend.token_contract tx_hash receipt

  unfoldable pub verify_transfer : String → W → Result ExecutionError TransferDetails × W
  verify_transfer tx_hash w =
      let hash = normalised tx_hash in
      let (r, w') = rpc_call "eth_getTransactionReceipt" (transaction hash) w in
      (verified hash r, w')

-- A hash of the standard library's `DefaultHasher`, four times over.
abbrev pub sha2_hash : (String → ℕ) → String → Bytes
sha2_hash default_hasher text =
    let word = le_bytes 8 (default_hasher text) in word ++ word ++ word ++ word

abbrev digit : ℕ → String
digit n = text_take 1 (text_drop n "0123456789abcdef")

-- `TxHash` as text.
abbrev pub display_hash : Bytes → String
display_hash [] = ""
display_hash (b ∷ bs) = concat (digit (b / 16)) (concat (digit (b % 16)) (display_hash bs))

abbrev zeros : ℕ → String
zeros zero = ""
zeros (suc n) = concat "0" (zeros n)

-- `decimal` is `to_string` of a number, `encode_register` the ABI's form of a call of `register`.
module _ {V W : Type 0} (json : JsonApi V) (post : String → Params → W → Result String V × W)
    (lower : String → String) (default_hasher : String → ℕ) (decimal : ℕ → String)
    (encode_register : Bytes → String → List String → String → String)
    (backend : StatusNetworkBackend) where
  abbrev hash_or_error : String → Result ExecutionError V → Result ExecutionError Bytes
  hash_or_error text (err e) = err e
  hash_or_error text (ok _) = ok (sha2_hash default_hasher text)

  -- A dry run.
  unfoldable pub register_agent : AgentCard → W → Result ExecutionError Bytes × W
  register_agent card w =
      let content_topic = concat "/a2a/1/" (concat (lower card.name) "/proto") in
      let calldata =
        encode_register (sha2_hash default_hasher card.name) card.name card.capabilities
          content_topic in
      let (r, w') =
        rpc_call json post lower backend "eth_call"
          (latest_call backend.registry_contract (concat "0x" calldata)) w in
      (hash_or_error card.name r, w')

  unfoldable pub pay : String → ℕ → W → Result ExecutionError Bytes × W
  pay to amount w =
      let (r, w') = rpc_call json post lower backend "eth_chainId" nothing w in
      (hash_or_error (concat to (concat ":" (decimal amount))) r, w')

  abbrev balance_of : Result ExecutionError V → Result ExecutionError ℕ
  balance_of (err e) = err e
  balance_of (ok result) = ok (or_zero (from_hex_u64 (trim_0x (text_of json "0x0" (some result)))))

  unfoldable pub balance : String → W → Result ExecutionError ℕ × W
  balance agent w =
      let address = trim_0x agent in
      let padded_addr = concat (zeros (64 - text_length address)) address in
      let (r, w') =
        rpc_call json post lower backend "eth_call"
          (latest_call backend.token_contract (concat "0x70a08231" padded_addr)) w in
      (balance_of r, w')

  abbrev shown : Result ExecutionError Bytes × W → Result ExecutionError String × W
  shown (err e, w) = (err e, w)
  shown (ok hash, w) = (ok (display_hash hash), w)

  -- The backend as the chain of the node's payments.
  abbrev pub chain : Chain W ExecutionError
  chain = record {
    pay = λ to amount w. shown (pay to amount w);
    verify_transfer = verify_transfer json post lower backend;
  }
