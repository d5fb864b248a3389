-- ===== src/Block/Left/Stays.antt =====
-- What a block request keeps of the store, whether it answers or panics.
use theta_rosetta_rpc_adapto.Prelude.{ℕ, suc, sym, subst, String, Option, none, some, List, [], ◌∷◌}
use theta_rosetta_rpc_adapto.Digits.{Bytes}
use theta_rosetta_rpc_adapto.Go.{Go, ok, panic, index, deref}
use theta_rosetta_rpc_adapto.Names.{TxType, block_status_string}
use theta_rosetta_rpc_adapto.Wire.{Hash, WithdrawStakeTx, Transaction, Theta}
use theta_rosetta_rpc_adapto.Parse.Stakes.{parse_withdraw_stake_tx}
use theta_rosetta_rpc_adapto.Store.Interface.{Store}
use theta_rosetta_rpc_adapto.StakeService.{Client, ReturnStakeTx, ReturnStakeTxs, get_stake_for_tx}
use theta_rosetta_rpc_adapto.Transaction.{Decoder, extend_returns, return_of}
use theta_rosetta_rpc_adapto.Block.{BlockResult, Tx, or_zero_gas}
use theta_rosetta_rpc_adapto.Block.Left.{
  on_panic, schedule_left, withdrawal_left, tx_left, txs_left, entries_left, block_left,
}
use theta_rosetta_rpc_adapto.Block.Left.Agreement.{Agrees, parse_tx-Agrees}

module _ (θ : Theta) (store : Store ReturnStakeTxs) where
  module _ (decode : Decoder) where
    -- A property of stores that adding a return under a key keeps, whether or not the write returns an
    -- error.
    module _ (P : store.State → Type 0)
        (closed : (key : Bytes) (r : ReturnStakeTx) (s : store.State)
          → P s
          → P (store.put key (extend_returns r (store.get key s)) s).1) where
      stays :
          {A : Type 0} (s : store.State) (m : Go A) (next : A → store.State)
          → P s
          → ((a : A) → P (next a))
          → P (on_panic s m next)
      stays s (ok a) next p k = k a
      stays s panic next p k = p

      schedule_left-stays :
          (client : Client) (tx : WithdrawStakeTx) (tx_hash : Hash) (height : ℕ) (s : store.State)
          → P s
          → P (schedule_left θ store client tx tx_hash height s)
      unfolding schedule_left
      schedule_left-stays client tx tx_hash height s p =
          stays s (get_stake_for_tx θ client tx height) _ p (λ outcome. stays s _ _ p (λ found.
            stays s (deref found) _ p (λ stake. closed _ (return_of θ tx tx_hash stake) s p)))

      tx_left-stays :
          (type : TxType) (raw : Bytes) (tx_hash : Hash) (status : Option String)
          (services : Option Client) (height : ℕ) (s : store.State)
          → P s
          → P (tx_left θ store decode type raw tx_hash status services height s)
      unfolding tx_left withdrawal_left
      tx_left-stays TxType.withdraw_stake_tx raw tx_hash status services height s p =
          stays s (parse_withdraw_stake_tx θ status (decode.withdraw_stake raw) _) _ p (λ parsed.
            stays s (deref services) _ p
              (λ client. schedule_left-stays client (decode.withdraw_stake raw) tx_hash height s p))
      tx_left-stays _ raw tx_hash status services height s p = p

      -- The next entry sees what the one before it has left.
      follows :
          (s : store.State) (m : Go (Transaction × store.State))
          (next : Transaction × store.State → store.State)
          → Agrees (λ r. r.1) m s
          → P s
          → ((r : Transaction × store.State) → P r.1 → P (next r))
          → P (on_panic s m next)
      follows s (ok r) next e p k = k r (subst P (sym e) p)
      follows s panic next e p k = p

      pub txs_left-stays :
          (client : Client) (status : String) (height : ℕ) (txs : List Tx) (i : ℕ)
          (raws : List Bytes) (s : store.State)
          → P s
          → P (txs_left θ store decode client status height txs i raws s)
      unfolding txs_left
      txs_left-stays client status height txs i [] s p = p
      txs_left-stays client status height txs i (raw ∷ raws) s p = stays s (index txs i) _ p (λ tx.
          follows _ _ _
            (parse_tx-Agrees θ store decode tx.type raw tx.hash (some status)
              (or_zero_gas tx.gas_used) tx.balance_changes (some client) height s)
            (tx_left-stays tx.type raw tx.hash (some status) (some client) height s p)
            (λ parsed q. txs_left-stays client status height txs (suc i) raws parsed.1 q))

      entries_left-stays :
          (client : Client) (status : String) (b : BlockResult) (raws : Option (List Bytes))
          (s : store.State)
          → P s
          → P (entries_left θ store decode client status b raws s)
      unfolding entries_left
      entries_left-stays client status b none s p = p
      entries_left-stays client status b (some raws) s p =
          txs_left-stays client status b.height b.txs 0 raws s p

      pub block_left-stays :
          (client : Client) (b : BlockResult) (s : store.State)
          → P s
          → P (block_left θ store decode client b s)
      unfolding block_left
      block_left-stays client b s p = stays s (deref b.timestamp) _ p (λ time.
          stays s (block_status_string b.status) _ p
            (λ status. entries_left-stays client status b b.raws s p))
