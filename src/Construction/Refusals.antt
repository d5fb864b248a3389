-- ===== src/Construction/Refusals.antt =====
-- What the endpoints of services/construction.go do to the messages of the errors.
use theta_rosetta_rpc_adapto.Prelude.{ℕ, zero, suc, String, Bool, Option, none, some, List, [], ◌∷◌}
use theta_rosetta_rpc_adapto.Digits.{Bytes}
use theta_rosetta_rpc_adapto.Wire.{Address, Operation, Theta}
use theta_rosetta_rpc_adapto.Rpc.{Reply, Status}
use theta_rosetta_rpc_adapto.Block.Endpoints.{Config, NetworkIdentifier}
use theta_rosetta_rpc_adapto.Handler.Messages.{TouchesOwn, touch_rules}
use theta_rosetta_rpc_adapto.Construction.{
  LedgerTx, send, contract, other, Match, Dynamic, Packages, PublicKey, get_operation_descriptions,
  construction_derive,
}
use theta_rosetta_rpc_adapto.Construction.Preprocess.{
  first_account, send_choices, choices_by_count, construction_preprocess,
}
use theta_rosetta_rpc_adapto.Construction.Suggest.{
  AccountAnswer, or_unavailable, as_text, as_float, need_status, given_fee, or_minimum, suggest_fee,
  suggest_gas_limit, suggest_gas_price, suggest_send, suggest_contract, suggest_by_type,
  construction_metadata,
}
use theta_rosetta_rpc_adapto.Construction.Payloads.{
  first_operation, assemble_send, gas_price_text, gas_limit_of, data_text, assemble_contract,
  assemble, construction_payloads, first_input, parse_ledger_tx, construction_parse,
}
use theta_rosetta_rpc_adapto.Wire.{TxInput}
use theta_rosetta_rpc_adapto.Construction.Finish.{
  Signature, signed_by, write_signed, check_and_sign, sign_with, construction_combine,
  construction_hash, construction_submit,
}

first_account-TouchesOwn : (ms : List Match) → TouchesOwn (first_account ms)
first_account-TouchesOwn [] = search touch_rules
first_account-TouchesOwn (m ∷ ms) = search touch_rules

send_choices-TouchesOwn :
    {F : Type 0} (a b c d e : Match) → TouchesOwn (send_choices {Float = F} a b c d e)
unfolding send_choices
send_choices-TouchesOwn a b c d e = search touch_rules depth 30

choices_by_count-TouchesOwn :
    {F : Type 0} (ms : List Match) → TouchesOwn (choices_by_count {Float = F} ms)
unfolding choices_by_count
choices_by_count-TouchesOwn [] = search touch_rules
choices_by_count-TouchesOwn (a ∷ []) = search touch_rules
choices_by_count-TouchesOwn (a ∷ b ∷ []) = search touch_rules
choices_by_count-TouchesOwn (a ∷ b ∷ c ∷ []) = search touch_rules
choices_by_count-TouchesOwn (a ∷ b ∷ c ∷ d ∷ []) = search touch_rules
choices_by_count-TouchesOwn (a ∷ b ∷ c ∷ d ∷ e ∷ []) = send_choices-TouchesOwn a b c d e
choices_by_count-TouchesOwn (a ∷ b ∷ c ∷ d ∷ e ∷ f ∷ ms) = search touch_rules

or_unavailable-TouchesOwn : (o : Option ℕ) → TouchesOwn (or_unavailable o)
or_unavailable-TouchesOwn none = search touch_rules
or_unavailable-TouchesOwn (some n) = search touch_rules

as_text-TouchesOwn : {F : Type 0} (v : Dynamic F) → TouchesOwn (as_text v)
as_text-TouchesOwn (Dynamic.float f) = search touch_rules
as_text-TouchesOwn (Dynamic.text s) = search touch_rules
as_text-TouchesOwn (Dynamic.another n) = search touch_rules

as_float-TouchesOwn : {F : Type 0} (v : Dynamic F) → TouchesOwn (as_float v)
as_float-TouchesOwn (Dynamic.float f) = search touch_rules
as_float-TouchesOwn (Dynamic.text s) = search touch_rules
as_float-TouchesOwn (Dynamic.another n) = search touch_rules

need_status-TouchesOwn :
    (reply : Reply Status) (o : Option Status) → TouchesOwn (need_status reply o)
need_status-TouchesOwn reply none = search touch_rules depth 10
need_status-TouchesOwn reply (some s) = search touch_rules

first_operation-TouchesOwn : (ops : List Operation) → TouchesOwn (first_operation ops)
first_operation-TouchesOwn [] = search touch_rules
first_operation-TouchesOwn (op ∷ ops) = search touch_rules

ruleset read_rules = (
  touch_rules, first_account-TouchesOwn, choices_by_count-TouchesOwn, or_unavailable-TouchesOwn,
  as_text-TouchesOwn, as_float-TouchesOwn, need_status-TouchesOwn, first_operation-TouchesOwn,
)

module _ (packages : Packages) where
  pub get_operation_descriptions-TouchesOwn :
      (operations : List Operation) → TouchesOwn (get_operation_descriptions packages operations)
  unfolding get_operation_descriptions
  get_operation_descriptions-TouchesOwn operations = search touch_rules depth 14

  pub construction_derive-TouchesOwn :
      (θ : Theta) (config : Config) (ni : Option NetworkIdentifier) (key : Option PublicKey)
      → TouchesOwn (construction_derive packages θ config ni key)
  unfolding construction_derive
  construction_derive-TouchesOwn θ config ni key = search touch_rules depth 14

  pub construction_hash-TouchesOwn :
      (θ : Theta) (config : Config) (ni : Option NetworkIdentifier) (signed : Bytes)
      → TouchesOwn (construction_hash packages θ config ni signed)
  unfolding construction_hash
  construction_hash-TouchesOwn θ config ni signed = search touch_rules depth 14

  signed_by-TouchesOwn :
      (signer : Address) (sig : Bytes) (tx : LedgerTx)
      → TouchesOwn (signed_by packages signer sig tx)
  unfolding signed_by
  signed_by-TouchesOwn signer sig (send tx) = search touch_rules depth 14
  signed_by-TouchesOwn signer sig (contract tx) = search touch_rules depth 14
  signed_by-TouchesOwn signer sig (other n) = search touch_rules depth 14

  pub construction_combine-TouchesOwn :
      (config : Config) (ni : Option NetworkIdentifier) (unsigned : Bytes)
      (signatures : List Signature)
      → TouchesOwn (construction_combine packages config ni unsigned signatures)
  unfolding construction_combine sign_with check_and_sign write_signed
  construction_combine-TouchesOwn config ni unsigned signatures =
      search (read_rules, signed_by-TouchesOwn) depth 30

  pub construction_preprocess-TouchesOwn :
      (config : Config) (ni : Option NetworkIdentifier) (operations : List Operation)
      (metadata : List (String × Dynamic packages.Float))
      → TouchesOwn (construction_preprocess packages config ni operations metadata)
  unfolding construction_preprocess
  construction_preprocess-TouchesOwn config ni operations metadata =
      search (read_rules, get_operation_descriptions-TouchesOwn) depth 20

  first_input-TouchesOwn : (inputs : List TxInput) → TouchesOwn (first_input packages inputs)
  first_input-TouchesOwn [] = search touch_rules
  first_input-TouchesOwn (i ∷ inputs) = search touch_rules

  given_fee-TouchesOwn :
      (status : Reply Status) (v : Option (Dynamic packages.Float))
      → TouchesOwn (given_fee packages status v)
  given_fee-TouchesOwn status none = search read_rules
  given_fee-TouchesOwn status (some v) = search read_rules depth 10

  or_minimum-TouchesOwn :
      (status : Reply Status) (n : ℕ) → TouchesOwn (or_minimum packages status n)
  or_minimum-TouchesOwn status zero = search read_rules depth 10
  or_minimum-TouchesOwn status (suc n) = search read_rules

  suggest_gas_limit-TouchesOwn :
      (status : Reply Status) (v : Option (Dynamic packages.Float))
      → TouchesOwn (suggest_gas_limit packages status v)
  unfolding suggest_gas_limit
  suggest_gas_limit-TouchesOwn status none = search read_rules depth 10
  suggest_gas_limit-TouchesOwn status (some v) = search read_rules

  suggest_gas_price-TouchesOwn :
      (status : Reply Status) (known : Option Status) (v : Option (Dynamic packages.Float))
      → TouchesOwn (suggest_gas_price packages status known v)
  unfolding suggest_gas_price
  suggest_gas_price-TouchesOwn status known none = search read_rules depth 10
  suggest_gas_price-TouchesOwn status known (some v) = search read_rules

  suggest_by_type-TouchesOwn :
      (status : Reply Status) (code n : ℕ) (options : List (String × Dynamic packages.Float))
      → TouchesOwn (suggest_by_type packages status code n options)
  unfolding suggest_by_type suggest_send suggest_contract suggest_fee
  suggest_by_type-TouchesOwn status code n options =
      search
        (
          read_rules, given_fee-TouchesOwn, or_minimum-TouchesOwn, suggest_gas_limit-TouchesOwn,
          suggest_gas_price-TouchesOwn,
        )
        depth 20

  pub construction_metadata-TouchesOwn :
      (status : Reply Status) (config : Config) (get_account : String → Reply AccountAnswer)
      (ni : Option NetworkIdentifier) (options : List (String × Dynamic packages.Float))
      → TouchesOwn (construction_metadata packages status config get_account ni options)
  unfolding construction_metadata
  construction_metadata-TouchesOwn status config get_account ni options =
      search (read_rules, suggest_by_type-TouchesOwn) depth 20

  gas_price_text-TouchesOwn :
      (v : Option (Dynamic packages.Float)) → TouchesOwn (gas_price_text packages v)
  gas_price_text-TouchesOwn none = search read_rules
  gas_price_text-TouchesOwn (some v) = search read_rules

  gas_limit_of-TouchesOwn :
      (v : Option (Dynamic packages.Float)) → TouchesOwn (gas_limit_of packages v)
  gas_limit_of-TouchesOwn none = search read_rules
  gas_limit_of-TouchesOwn (some v) = search read_rules

  data_text-TouchesOwn : (v : Option (Dynamic packages.Float)) → TouchesOwn (data_text packages v)
  data_text-TouchesOwn none = search read_rules
  data_text-TouchesOwn (some v) = search read_rules

  assemble_send-TouchesOwn : (ms : List Match) (n : ℕ) → TouchesOwn (assemble_send packages ms n)
  unfolding assemble_send
  assemble_send-TouchesOwn (a ∷ b ∷ c ∷ d ∷ e ∷ ms) n = search read_rules depth 20
  assemble_send-TouchesOwn [] n = search read_rules
  assemble_send-TouchesOwn (a ∷ []) n = search read_rules
  assemble_send-TouchesOwn (a ∷ b ∷ []) n = search read_rules
  assemble_send-TouchesOwn (a ∷ b ∷ c ∷ []) n = search read_rules
  assemble_send-TouchesOwn (a ∷ b ∷ c ∷ d ∷ []) n = search read_rules

  assemble_contract-TouchesOwn :
      (ms : List Match) (n : ℕ) (metadata : List (String × Dynamic packages.Float))
      → TouchesOwn (assemble_contract packages ms n metadata)
  unfolding assemble_contract
  assemble_contract-TouchesOwn [] n metadata = search read_rules
  assemble_contract-TouchesOwn (a ∷ []) n metadata = search read_rules
  assemble_contract-TouchesOwn (a ∷ b ∷ ms) n metadata =
      search (read_rules, gas_price_text-TouchesOwn, gas_limit_of-TouchesOwn, data_text-TouchesOwn)
        depth 30

  pub construction_payloads-TouchesOwn :
      (config : Config) (ni : Option NetworkIdentifier) (operations : List Operation)
      (metadata : List (String × Dynamic packages.Float))
      → TouchesOwn (construction_payloads packages config ni operations metadata)
  unfolding construction_payloads assemble
  construction_payloads-TouchesOwn config ni operations metadata =
      search
        (
          read_rules, get_operation_descriptions-TouchesOwn, assemble_send-TouchesOwn,
          assemble_contract-TouchesOwn,
        )
        depth 30

  parse_ledger_tx-TouchesOwn :
      (θ : Theta) (signed : Bool) (tx : LedgerTx)
      → TouchesOwn (parse_ledger_tx packages θ signed tx)
  unfolding parse_ledger_tx
  parse_ledger_tx-TouchesOwn θ signed (send tx) =
      search (read_rules, first_input-TouchesOwn) depth 10
  parse_ledger_tx-TouchesOwn θ signed (contract tx) = search read_rules
  parse_ledger_tx-TouchesOwn θ signed (other n) = search read_rules

  pub construction_parse-TouchesOwn :
      (θ : Theta) (config : Config) (ni : Option NetworkIdentifier) (signed : Bool) (hex : Bytes)
      → TouchesOwn (construction_parse packages θ config ni signed hex)
  unfolding construction_parse
  construction_parse-TouchesOwn θ config ni signed hex =
      search (read_rules, parse_ledger_tx-TouchesOwn) depth 20

pub construction_submit-TouchesOwn :
    (config : Config) (broadcast : Bytes → Reply (Option String))
    (error_text : Reply (Option String) → String) (ni : Option NetworkIdentifier) (signed : Bytes)
    → TouchesOwn (construction_submit config broadcast error_text ni signed)
unfolding construction_submit
construction_submit-TouchesOwn config broadcast error_text ni signed = search touch_rules depth 14
