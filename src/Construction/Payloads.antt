-- ===== src/Construction/Payloads.antt =====
-- `ConstructionPayloads` and `ConstructionParse` of services/construction.go: from operations to an
-- unsigned transaction, and from a transaction to operations.
pub mod SendTrip
pub mod ContractTrip
use Prim.Native.String
use theta_rosetta_rpc_adapto.Prelude.{
  ℕ, String, Bool, true, false, Option, none, some, List, [], ◌∷◌, ◌==◌, length, if◌then◌else◌,
}
use theta_rosetta_rpc_adapto.Prelude.Int.{ℤ, pos, neg, ◌+ℤ◌}
use theta_rosetta_rpc_adapto.Digits.{Bytes}
use theta_rosetta_rpc_adapto.Hex.{codes, hex_encode, hex_decode}
use theta_rosetta_rpc_adapto.Go
use theta_rosetta_rpc_adapto.Go.{Go, ok, panic, deref}
use theta_rosetta_rpc_adapto.Names.{TxType}
use theta_rosetta_rpc_adapto.Wire.{
  Coins, TxInput, TxOutput, SendTx, SmartContractTx, Metadata, Operation, Theta,
}
use theta_rosetta_rpc_adapto.Errors.{err_service_internal, err_unable_to_parse_tx}
use theta_rosetta_rpc_adapto.Parse.Transfers.{parse_send_tx}
use theta_rosetta_rpc_adapto.Parse.Contracts.{parse_smart_contract_tx_for_construction}
use theta_rosetta_rpc_adapto.Block.Endpoints.{Config, NetworkIdentifier}
use theta_rosetta_rpc_adapto.Handler.{
  Handler, ◌>>=◌, ◌>>◌, give, refuse_with, crash, run_go, follow, or_refuse, Fallible, attempt,
  valid_network,
}
use theta_rosetta_rpc_adapto.Construction.{
  LedgerTx, send, contract, other, Match, Dynamic, Packages, find_key, join,
  get_operation_descriptions,
}
use theta_rosetta_rpc_adapto.Construction.Suggest.{as_text, as_float}

-- A response of `ConstructionPayloads`: the transaction's hexadecimal text, and what is to be signed
-- by whom.
pub record Payloads : Type 0 where
  pub unsigned_transaction : Bytes
  pub signer : String
  pub sign_hash : Bytes

abbrev pub coins_with : ℤ → ℤ → Coins
coins_with theta tfuel = record { theta_wei = some theta; tfuel_wei = some tfuel }

abbrev pub first_operation : List Operation → Handler Operation
first_operation [] = crash
first_operation (op ∷ ops) = give op

module _ (packages : Packages) where
  abbrev pub input_of : Operation → Coins → ℕ → TxInput
  input_of op coins sequence = record {
    address = packages.hex_to_address op.account;
    coins = coins;
    sequence = sequence;
    signature = none;
  }

  abbrev pub output_of : Operation → Coins → TxOutput
  output_of op coins = record { address = packages.hex_to_address op.account; coins = coins }

  -- The amounts of a send, the first two and the last one negated; the fee is added to the input.
  abbrev pub assembled_send : Operation → Operation → ℤ → ℤ → Option ℤ → Option ℤ → ℤ → ℕ → SendTx
  assembled_send from to from_theta from_tfuel to_theta to_tfuel fee sequence = record {
    fee = coins_with (pos 0) (neg fee);
    inputs = input_of from (coins_with (neg from_theta) (neg from_tfuel +ℤ neg fee)) sequence ∷ [];
    outputs = output_of to (record { theta_wei = to_theta; tfuel_wei = to_tfuel }) ∷ [];
  }

  -- Of the matches, the first and the third give the accounts; of the others `First` is asked for
  -- the amount alone.
  unfoldable pub assemble_send : List Match → ℕ → Handler LedgerTx
  assemble_send (m0 ∷ m1 ∷ m2 ∷ m3 ∷ m4 ∷ ms) sequence = do
    a0 ← follow m0.amount
    a1 ← follow m1.amount
    a4 ← follow m4.amount
    from ← follow m0.op
    to ← follow m2.op
    give (send (assembled_send from to a0 a1 m2.amount m3.amount a4 sequence))
  assemble_send _ sequence = crash

  abbrev pub gas_price_text : Option (Dynamic packages.Float) → Handler String
  gas_price_text none = give "0wei"
  gas_price_text (some v) = do f ← as_float v; give (join (packages.float_text f) "wei")

  abbrev pub gas_limit_of : Option (Dynamic packages.Float) → Handler ℕ
  gas_limit_of none = give 10000000
  gas_limit_of (some v) = do f ← as_float v; give (packages.float_u64 f)

  abbrev pub data_text : Option (Dynamic packages.Float) → Handler String
  data_text none = give ""
  data_text (some v) = as_text v

  abbrev pub assembled_contract :
      Operation → Operation → ℤ → Option ℤ → ℕ → ℤ → ℕ → Bytes → SmartContractTx
  assembled_contract from to from_tfuel to_tfuel sequence price limit payload = record {
    from = input_of from (coins_with (pos 0) (neg from_tfuel)) sequence;
    to = output_of to (record { theta_wei = some (pos 0); tfuel_wei = to_tfuel });
    gas_limit = limit;
    gas_price = some price;
    payload = payload;
  }

  unfoldable pub assemble_contract :
      List Match → ℕ → List (String × Dynamic packages.Float) → Handler LedgerTx
  assemble_contract (m0 ∷ m1 ∷ ms) sequence metadata = do
    a0 ← follow m0.amount
    from ← follow m0.op
    to ← follow m1.op
    price_text ← gas_price_text (find_key "gas_price" metadata)
    price ←
        or_refuse (packages.parse_coin_amount price_text) err_service_internal
          "failed to parse gas price"
    limit ← gas_limit_of (find_key "gas_limit" metadata)
    text ← data_text (find_key "data" metadata)
    payload ← or_refuse (hex_decode (codes text)) err_service_internal "failed to parse data"
    give (contract (assembled_contract from to a0 m1.amount sequence price limit payload))
  assemble_contract _ sequence metadata = crash

  -- By the number of operations, not of matches.
  unfoldable pub assemble :
      ℕ → List Match → ℕ → List (String × Dynamic packages.Float) → Handler LedgerTx
  unfolding assemble_send assemble_contract
  assemble count matches sequence metadata =
      if count == 2
      then assemble_contract matches sequence metadata
      else if count == 5
      then assemble_send matches sequence
      else refuse_with err_service_internal "invalid number of operations"

  unfoldable pub construction_payloads :
      Config
      → Option NetworkIdentifier
      → List Operation
      → List (String × Dynamic packages.Float)
      → Handler Payloads
  unfolding assemble
  construction_payloads config ni operations metadata = do
    valid_network config ni
    number ← or_refuse (find_key "sequence" metadata) err_service_internal "missing tx sequence"
    f ← as_float number
    matches ← get_operation_descriptions packages operations
    tx ← assemble (length operations) matches (packages.float_u64 f) metadata
    raw ← attempt (packages.tx_to_bytes tx) err_service_internal (λ e. e)
    first ← first_operation operations
    give (record {
      unsigned_transaction = hex_encode raw;
      signer = first.account;
      sign_hash = packages.keccak256 (packages.sign_bytes config.chain_id tx);
    })

  -- A response of `ConstructionParse`.
  abbrev pub Parsed : Type 0
  Parsed = Metadata × List Operation × Option String

  abbrev pub signer_if : Bool → String → Option String
  signer_if true signer = some signer
  signer_if false signer = none

  abbrev pub first_input : List TxInput → Handler TxInput
  first_input [] = crash
  first_input (input ∷ inputs) = give input

  unfoldable pub parse_ledger_tx : Theta → Bool → LedgerTx → Handler Parsed
  parse_ledger_tx θ signed (send tx) = do
    input ← first_input tx.inputs
    parsed ← run_go (parse_send_tx θ none tx TxType.send_tx)
    give (parsed.0, parsed.1, signer_if signed (θ.address_string input.address))
  parse_ledger_tx θ signed (contract tx) = do
    let parsed = parse_smart_contract_tx_for_construction θ tx TxType.smart_contract_tx
    give (parsed.0, parsed.1, signer_if signed (θ.address_string tx.from.address))
  parse_ledger_tx θ signed (other n) = refuse_with err_unable_to_parse_tx "unsupported tx type"

  -- The bytes of a hexadecimal text, and the transaction that they encode.
  abbrev pub read_tx : Bytes → Handler LedgerTx
  read_tx hex = do
    raw ← or_refuse (hex_decode hex) err_unable_to_parse_tx (packages.hex_error hex)
    attempt (packages.tx_from_bytes raw) err_unable_to_parse_tx (λ e. e)

  unfoldable pub construction_parse :
      Theta → Config → Option NetworkIdentifier → Bool → Bytes → Handler Parsed
  unfolding parse_ledger_tx
  construction_parse θ config ni signed transaction = do
    valid_network config ni
    tx ← read_tx transaction
    parse_ledger_tx θ signed tx
