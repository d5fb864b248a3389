-- ===== src/Block/Left.antt =====
-- The store that a block request leaves where it panics: `Put` has written the returns of the earlier
-- withdrawals of the block by then (common/utils.go and services/block.go).
pub mod Agreement
pub mod Stays
use theta_rosetta_rpc_adapto.Prelude.{
  ℕ, suc, ◌+◌, ◌≡◌, ◌≢◌, refl, sym, subst, String, Option, none, some, List, [], ◌∷◌, Bool-cases,
  inl, inr,
}
use theta_rosetta_rpc_adapto.Digits.{Bytes}
use theta_rosetta_rpc_adapto.Go.{Go, ok, panic, ◌>>=◌, index, deref}
use theta_rosetta_rpc_adapto.Names.{TxType, block_status_string}
use theta_rosetta_rpc_adapto.Wire.{Hash, WithdrawStakeTx, Transaction, BalanceChange, Theta}
use theta_rosetta_rpc_adapto.Parse.Stakes.{parse_withdraw_stake_tx}
use theta_rosetta_rpc_adapto.Store.Interface.{Store}
use theta_rosetta_rpc_adapto.StakeService.{
  Stake, Client, ReturnStakeTx, ReturnStakeTxs, returned, failed, height_bytes, get_stake_for_tx,
}
use theta_rosetta_rpc_adapto.Transaction.{
  Decoder, extend_returns, return_of, put_or_panic, schedule_return, parse_withdrawal, parse_tx,
}
use theta_rosetta_rpc_adapto.Transaction.Dispatch.{Keeps, parse_tx-Keeps}
use theta_rosetta_rpc_adapto.Block.{
  Block, BlockResult, Tx, or_zero_gas, parse_txs, entry_transactions, parse_block,
}
use theta_rosetta_rpc_adapto.Block.Kept.{type_discrete}

-- The state after a step and what follows it; a step that panics leaves the one it is given.
abbrev pub on_panic : {A S : Type 0} → S → Go A → (A → S) → S
on_panic s panic next = s
on_panic s (ok a) next = next a

module _ (θ : Theta) (store : Store ReturnStakeTxs) where
  -- A `Put` that fails panics after the store has had it.
  unfoldable pub schedule_left : Client → WithdrawStakeTx → Hash → ℕ → store.State → store.State
  schedule_left client tx tx_hash height s =
      on_panic s (get_stake_for_tx θ client tx height) (λ outcome.
        on_panic s (elim outcome [ returned found ↦ ok found | failed ↦ panic ])
          (λ found. on_panic s (deref found) (λ stake.
            let key = height_bytes (height + θ.return_locking_period) in
            (store.put key (extend_returns (return_of θ tx tx_hash stake) (store.get key s)) s).1)))

  unfoldable pub withdrawal_left :
      Option String
      → Option Client
      → WithdrawStakeTx
      → TxType
      → Hash
      → ℕ
      → store.State
      → store.State
  unfolding schedule_left
  withdrawal_left status services tx type tx_hash height s =
      on_panic s (parse_withdraw_stake_tx θ status tx type)
        (λ parsed. on_panic s (deref services) (λ client. schedule_left client tx tx_hash height s))

  module _ (decode : Decoder) where
    -- Only a withdrawal writes.
    unfoldable pub tx_left :
        TxType → Bytes → Hash → Option String → Option Client → ℕ → store.State → store.State
    unfolding withdrawal_left
    tx_left TxType.withdraw_stake_tx raw tx_hash status services height s =
        withdrawal_left status services (decode.withdraw_stake raw) TxType.withdraw_stake_tx tx_hash
          height s
    tx_left _ raw tx_hash status services height s = s

    unfoldable pub txs_left :
        Client → String → ℕ → List Tx → ℕ → List Bytes → store.State → store.State
    unfolding tx_left
    txs_left client status height txs i [] s = s
    txs_left client status height txs i (raw ∷ raws) s = on_panic s (index txs i) (λ tx.
        on_panic (tx_left tx.type raw tx.hash (some status) (some client) height s)
          (parse_tx θ store decode tx.type raw tx.hash (some status) (or_zero_gas tx.gas_used)
            tx.balance_changes (some client) height s)
          (λ parsed. txs_left client status height txs (suc i) raws parsed.1))

    unfoldable pub entries_left :
        Client → String → BlockResult → Option (List Bytes) → store.State → store.State
    unfolding txs_left
    entries_left client status b none s = s
    entries_left client status b (some raws) s = txs_left client status b.height b.txs 0 raws s

    -- What the closure of `Block` leaves, whether it answers or panics.
    unfoldable pub block_left : Client → BlockResult → store.State → store.State
    unfolding entries_left
    block_left client b s = on_panic s (deref b.timestamp) (λ time.
        on_panic s (block_status_string b.status) (λ status. entries_left client status b b.raws s))
