-- ===== src/Parse/Contracts.antt =====
-- `ParseSmartContractTxForConstruction` and `ParseSmartContractTx` of common/utils.go.
use theta_rosetta_rpc_adapto.Prelude.{
  ℕ, ◌*◌, String, Bool, true, false, Option, List, [], ◌∷◌, ltb, ◌==◌, if◌then◌else◌,
}
use theta_rosetta_rpc_adapto.Prelude.Int.{ℤ, neg, pos_part, neg_part, sub_ℕ}
use theta_rosetta_rpc_adapto.Digits.{Bytes, big_string, big_pointer_string}
use theta_rosetta_rpc_adapto.Go.{Go, ok, ◌>>=◌, deref}
use theta_rosetta_rpc_adapto.Names.{
  Currency, TxType, TxOpType, get_theta_currency, get_tfuel_currency,
}
use theta_rosetta_rpc_adapto.Wire.{
  Metadata, Value, Operation, SmartContractTx, BalanceChange, Theta,
}
use theta_rosetta_rpc_adapto.Parse.{Emitter, no_ops, operation, input_metadata, emit, emit_nonzero}

abbrev pub contract_metadata : SmartContractTx → TxType → Metadata
contract_metadata tx type =
    ("type", Value.tx_type type)
    ∷ ("gas_limit", Value.number tx.gas_limit)
    ∷ ("gas_price", Value.integer tx.gas_price)
    ∷ ("data", Value.bytes tx.payload)
    ∷ []

-- A number times an integer.
unfoldable pub scale : ℕ → ℤ → ℤ
scale n z = sub_ℕ (n * pos_part z) (n * neg_part z)

abbrev pub change_currency : ℕ → Currency
change_currency token_type = if token_type == 0 then get_theta_currency else get_tfuel_currency

-- `amount` and `opType` of a balance change: a negative one needs its delta, another prints it.
unfoldable pub change_amount : Bool → Option ℤ → Go (TxOpType × Bytes)
change_amount true delta = do
  z ← deref delta
  ok (TxOpType.smart_contract_tx_from, big_string (neg z))
change_amount false delta = ok (TxOpType.smart_contract_tx_to, big_pointer_string delta)

module _ (θ : Theta) where
  unfoldable pub parse_smart_contract_tx_for_construction :
      SmartContractTx → TxType → Metadata × List Operation
  parse_smart_contract_tx_for_construction tx type =
      let from = θ.address_string tx.from.address in
      let to = θ.address_string tx.to.address in
      let meta = input_metadata θ tx.from in
      let e1 =
        emit_nonzero tx.from.coins.theta_wei
          (λ i z.
            operation i TxOpType.smart_contract_tx_from from (big_string (neg z)) get_theta_currency
              meta)
          no_ops in
      let e2 =
        emit_nonzero tx.from.coins.tfuel_wei
          (λ i z.
            operation i TxOpType.smart_contract_tx_from from (big_string (neg z)) get_tfuel_currency
              meta)
          e1 in
      let e3 =
        emit_nonzero tx.to.coins.theta_wei
          (λ i z. operation i TxOpType.smart_contract_tx_to to (big_string z) get_theta_currency [])
          e2 in
      let e4 =
        emit_nonzero tx.to.coins.tfuel_wei
          (λ i z. operation i TxOpType.smart_contract_tx_to to (big_string z) get_tfuel_currency [])
          e3 in
      (contract_metadata tx type, e4.ops)

  abbrev pub change_operation : BalanceChange → TxOpType × Bytes → ℕ → Operation
  change_operation change (op_type, value) i =
      operation i op_type (θ.address_string change.address) value
        (change_currency change.token_type) []

  abbrev pub gas_operation : SmartContractTx → ℕ → ℤ → ℕ → Operation
  gas_operation tx gas_used price i =
      operation i TxOpType.tx_fee (θ.address_string tx.from.address)
        (big_string (neg (scale gas_used price))) get_tfuel_currency []

  module _ (status : Option String) where
    -- One balance change: an unknown token is skipped.
    unfoldable pub contract_change : BalanceChange → Emitter → Go Emitter
    unfolding change_amount
    contract_change change e = if ltb 1 change.token_type then ok e else do
      amount ← change_amount change.is_negative change.delta
      ok (emit status (change_operation change amount e.next) e)

    unfoldable pub contract_changes : List BalanceChange → Emitter → Go Emitter
    unfolding contract_change
    contract_changes [] e = ok e
    contract_changes (change ∷ changes) e = do
      e' ← contract_change change e
      contract_changes changes e'

    -- `if gasUsed != 0 { … }`
    unfoldable pub contract_fee : SmartContractTx → ℕ → Emitter → Go Emitter
    unfolding scale
    contract_fee tx gas_used e = if gas_used == 0 then ok e else do
      price ← deref tx.gas_price
      ok (emit status (gas_operation tx gas_used price e.next) e)

    unfoldable pub parse_smart_contract_tx :
        SmartContractTx → TxType → ℕ → Option (List BalanceChange) → Go (Metadata × List Operation)
    unfolding contract_changes contract_fee
    parse_smart_contract_tx tx type gas_used balance_changes = do
      changes ← deref balance_changes
      e ← contract_changes changes no_ops
      e' ← contract_fee tx gas_used e
      ok (contract_metadata tx type, e'.ops)
