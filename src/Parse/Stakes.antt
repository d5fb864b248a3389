-- ===== src/Parse/Stakes.antt =====
-- `ParseDepositStakeTx`, `ParseWithdrawStakeTx`, `ParseReturnStakeTx` and
-- `ParseStakeRewardDistributionTx` of common/utils.go.
use theta_rosetta_rpc_adapto.Prelude.{String, Option, none, some, List, [], ◌∷◌, ◌++◌}
use theta_rosetta_rpc_adapto.Prelude.Int.{ℤ, pos, neg, ◌-ℤ◌}
use theta_rosetta_rpc_adapto.Digits.{Bytes, big_string}
use theta_rosetta_rpc_adapto.Go.{Go, ok, ◌>>=◌, deref}
use theta_rosetta_rpc_adapto.Names.{TxType, TxOpType, get_theta_currency, get_tfuel_currency}
use theta_rosetta_rpc_adapto.Wire.{
  Metadata, Value, Operation, DepositStakeTx, WithdrawStakeTx, StakeRewardDistributionTx, Theta,
}
use theta_rosetta_rpc_adapto.Parse.{
  Emitter, no_ops, operation, fee_operation, input_metadata, set_status, emit, emit_coin,
}

-- `if p != nil { metadata[key] = p }`
abbrev pub optional_entry : String → Option Bytes → Metadata
optional_entry key none = []
optional_entry key (some b) = (key, Value.bytes b) ∷ []

abbrev pub stake_metadata : WithdrawStakeTx → TxType → Metadata
stake_metadata tx type = ("type", Value.tx_type type) ∷ ("purpose", Value.number tx.purpose) ∷ []

abbrev pub deposit_metadata : DepositStakeTx → TxType → Metadata
deposit_metadata tx type =
    ("type", Value.tx_type type)
    ∷ ("purpose", Value.number tx.purpose)
    ∷ (optional_entry "bls_pub_key" tx.bls_pubkey
        ++ (optional_entry "bls_pop" tx.bls_pop ++ optional_entry "holder_sig" tx.holder_sig))

abbrev pub reward_metadata : StakeRewardDistributionTx → TxType → Metadata
reward_metadata tx type =
    ("type", Value.tx_type type) ∷ ("split_basis_point", Value.number tx.split_basis_point) ∷ []

module _ (θ : Theta) (status : Option String) where
  unfoldable pub deposit_source : DepositStakeTx → Emitter
  deposit_source tx =
      let account = θ.address_string tx.source.address in
      let meta = input_metadata θ tx.source in
      emit_coin status tx.source.coins.tfuel_wei
        (λ i z.
          operation i TxOpType.deposit_stake_tx_source account (big_string (neg z))
            get_tfuel_currency meta)
        (emit_coin status tx.source.coins.theta_wei
          (λ i z.
            operation i TxOpType.deposit_stake_tx_source account (big_string (neg z))
              get_theta_currency meta)
          no_ops)

  unfoldable pub deposit_operations : ℤ → DepositStakeTx → List Operation
  unfolding deposit_source
  deposit_operations fee tx =
      let e = deposit_source tx in
      (emit status (fee_operation e.next (θ.address_string tx.source.address) fee) e).ops

  unfoldable pub parse_deposit_stake_tx : DepositStakeTx → TxType → Go (Metadata × List Operation)
  unfolding deposit_operations
  parse_deposit_stake_tx tx type = do
    fee ← deref tx.fee.tfuel_wei
    ok (deposit_metadata tx type, deposit_operations fee tx)

  -- The fee alone: the stake itself comes back later.
  unfoldable pub parse_withdraw_stake_tx : WithdrawStakeTx → TxType → Go (Metadata × List Operation)
  parse_withdraw_stake_tx tx type = do
    fee ← deref tx.fee.tfuel_wei
    ok (
      stake_metadata tx type,
      set_status status (fee_operation 0 (θ.address_string tx.source.address) fee) ∷ [],
    )

  unfoldable pub return_operations : WithdrawStakeTx → Emitter
  return_operations tx =
      let account = θ.address_string tx.source.address in
      let meta = input_metadata θ tx.source in
      emit_coin status tx.source.coins.tfuel_wei
        (λ i z.
          operation i TxOpType.withdraw_stake_tx_source account (big_string z) get_tfuel_currency
            meta)
        (emit_coin status tx.source.coins.theta_wei
          (λ i z.
            operation i TxOpType.withdraw_stake_tx_source account (big_string z) get_theta_currency
              meta)
          no_ops)

  unfoldable pub parse_return_stake_tx : WithdrawStakeTx → TxType → Metadata × List Operation
  unfolding return_operations
  parse_return_stake_tx tx type = (stake_metadata tx type, (return_operations tx).ops)

  -- Each operation starts out related to `i - 1`, also where `i` is 0.
  unfoldable pub reward_beneficiary : StakeRewardDistributionTx → Emitter
  reward_beneficiary tx =
      let account = θ.address_string tx.beneficiary.address in
      emit_coin status tx.beneficiary.coins.tfuel_wei
        (λ i z.
          record (operation i TxOpType.stake_reward_distribution_tx_beneficiary account
            (big_string z) get_tfuel_currency []) { related = (pos i -ℤ pos 1) ∷ [] })
        (emit_coin status tx.beneficiary.coins.theta_wei
          (λ i z.
            record (operation i TxOpType.stake_reward_distribution_tx_beneficiary account
              (big_string z) get_theta_currency []) { related = (pos i -ℤ pos 1) ∷ [] })
          no_ops)

  -- The holder pays the fee.
  unfoldable pub reward_operations : ℤ → StakeRewardDistributionTx → List Operation
  unfolding reward_beneficiary
  reward_operations fee tx =
      let e = reward_beneficiary tx in
      (emit status (fee_operation e.next (θ.address_string tx.holder.address) fee) e).ops

  unfoldable pub parse_stake_reward_distribution_tx :
      StakeRewardDistributionTx → TxType → Go (Metadata × List Operation)
  unfolding reward_operations
  parse_stake_reward_distribution_tx tx type = do
    fee ← deref tx.fee.tfuel_wei
    ok (reward_metadata tx type, reward_operations fee tx)
