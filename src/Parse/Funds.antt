-- ===== src/Parse/Funds.antt =====
-- `ParseReserveFundTx`, `ParseReleaseFundTx`, `ParseServicePaymentTx` and `ParseSplitRuleTx` of
-- common/utils.go.
use theta_rosetta_rpc_adapto.Prelude.{String, Option, List, [], ◌∷◌}
use theta_rosetta_rpc_adapto.Prelude.Int.{ℤ, pos, neg}
use theta_rosetta_rpc_adapto.Digits.{big_string, big_pointer_string}
use theta_rosetta_rpc_adapto.Go.{Go, ok, ◌>>=◌, deref}
use theta_rosetta_rpc_adapto.Names.{TxType, TxOpType, get_theta_currency, get_tfuel_currency}
use theta_rosetta_rpc_adapto.Wire.{
  Metadata, Value, Operation, ReserveFundTx, ReleaseFundTx, ServicePaymentTx, SplitRuleTx, Theta,
}
use theta_rosetta_rpc_adapto.Parse.{
  Emitter, no_ops, operation, fee_operation, input_metadata, set_status, emit, emit_coin,
}

abbrev pub reserve_metadata : ReserveFundTx → TxType → Metadata
reserve_metadata tx type =
    ("type", Value.tx_type type)
    ∷ ("collateral", Value.coins tx.collateral)
    ∷ ("resource_ids", Value.texts tx.resource_ids)
    ∷ ("duration", Value.number tx.duration)
    ∷ []

abbrev pub release_metadata : ReleaseFundTx → TxType → Metadata
release_metadata tx type =
    ("type", Value.tx_type type) ∷ ("reserve_sequence", Value.number tx.reserve_sequence) ∷ []

abbrev pub service_payment_metadata : ServicePaymentTx → TxType → Metadata
service_payment_metadata tx type =
    ("type", Value.tx_type type)
    ∷ ("payment_sequence", Value.number tx.payment_sequence)
    ∷ ("reserve_sequence", Value.number tx.reserve_sequence)
    ∷ ("resource_id", Value.text tx.resource_id)
    ∷ []

abbrev pub split_rule_metadata : SplitRuleTx → TxType → Metadata
split_rule_metadata tx type =
    ("type", Value.tx_type type)
    ∷ ("resource_id", Value.text tx.resource_id)
    ∷ ("splits", Value.shares tx.splits)
    ∷ ("duration", Value.number tx.duration)
    ∷ []

module _ (θ : Theta) (status : Option String) where
  -- The source's Theta and TFuel, both negated.
  unfoldable pub reserve_source : ReserveFundTx → Emitter
  reserve_source tx =
      let account = θ.address_string tx.source.address in
      let meta = input_metadata θ tx.source in
      emit_coin status tx.source.coins.tfuel_wei
        (λ i z.
          operation i TxOpType.reserve_fund_tx_source account (big_string (neg z))
            get_tfuel_currency meta)
        (emit_coin status tx.source.coins.theta_wei
          (λ i z.
            operation i TxOpType.reserve_fund_tx_source account (big_string (neg z))
              get_theta_currency meta)
          no_ops)

  -- The fee's operation starts out related to index 1.
  unfoldable pub reserve_operations : ℤ → ReserveFundTx → List Operation
  unfolding reserve_source
  reserve_operations fee tx =
      let e = reserve_source tx in
      (emit status
        (record (fee_operation e.next (θ.address_string tx.source.address) fee) {
          related = pos 1 ∷ [];
        })
        e).ops

  unfoldable pub parse_reserve_fund_tx : ReserveFundTx → TxType → Go (Metadata × List Operation)
  unfolding reserve_operations
  parse_reserve_fund_tx tx type = do
    fee ← deref tx.fee.tfuel_wei
    ok (reserve_metadata tx type, reserve_operations fee tx)

  -- The source's Theta as it is and its TFuel negated.
  unfoldable pub release_source : ReleaseFundTx → Emitter
  release_source tx =
      let account = θ.address_string tx.source.address in
      let meta = input_metadata θ tx.source in
      emit_coin status tx.source.coins.tfuel_wei
        (λ i z.
          operation i TxOpType.release_fund_tx_source account (big_string (neg z))
            get_tfuel_currency meta)
        (emit_coin status tx.source.coins.theta_wei
          (λ i z.
            operation i TxOpType.release_fund_tx_source account (big_string z) get_theta_currency
              meta)
          no_ops)

  unfoldable pub release_operations : ℤ → ReleaseFundTx → List Operation
  unfolding release_source
  release_operations fee tx =
      let e = release_source tx in
      (emit status
        (record (fee_operation e.next (θ.address_string tx.source.address) fee) {
          related = pos 1 ∷ [];
        })
        e).ops

  unfoldable pub parse_release_fund_tx : ReleaseFundTx → TxType → Go (Metadata × List Operation)
  unfolding release_operations
  parse_release_fund_tx tx type = do
    fee ← deref tx.fee.tfuel_wei
    ok (release_metadata tx type, release_operations fee tx)

  -- The target pays the fee; its amount is printed through the pointer.
  unfoldable pub service_payment_operations : ℤ → ℤ → ServicePaymentTx → List Operation
  service_payment_operations source_wei fee tx =
      set_status status (
        operation 0 TxOpType.service_payment_tx_source (θ.address_string tx.source.address)
          (big_string (neg source_wei)) get_tfuel_currency (input_metadata θ tx.source))
      ∷ set_status status
          (record (operation 1 TxOpType.service_payment_tx_target
            (θ.address_string tx.target.address) (big_pointer_string tx.target.coins.tfuel_wei)
            get_tfuel_currency []) { related = pos 0 ∷ [] })
      ∷ set_status status (record (fee_operation 2 (θ.address_string tx.target.address) fee) {
        related = pos 1 ∷ [];
      })
      ∷ []

  unfoldable pub parse_service_payment_tx :
      ServicePaymentTx → TxType → Go (Metadata × List Operation)
  unfolding service_payment_operations
  parse_service_payment_tx tx type = do
    source_wei ← deref tx.source.coins.tfuel_wei
    fee ← deref tx.fee.tfuel_wei
    ok (service_payment_metadata tx type, service_payment_operations source_wei fee tx)

  unfoldable pub split_rule_operations : ℤ → SplitRuleTx → List Operation
  split_rule_operations fee tx =
      set_status status (
        operation 0 TxOpType.split_rule_tx_initiator (θ.address_string tx.initiator.address)
          (big_pointer_string tx.initiator.coins.tfuel_wei) get_tfuel_currency
          (input_metadata θ tx.initiator))
      ∷ set_status status (record (fee_operation 1 (θ.address_string tx.initiator.address) fee) {
        related = pos 0 ∷ [];
      })
      ∷ []

  unfoldable pub parse_split_rule_tx : SplitRuleTx → TxType → Go (Metadata × List Operation)
  unfolding split_rule_operations
  parse_split_rule_tx tx type = do
    fee ← deref tx.fee.tfuel_wei
    ok (split_rule_metadata tx type, split_rule_operations fee tx)
