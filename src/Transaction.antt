-- ===== src/Transaction.antt =====
-- `ParseTx` of common/utils.go: a transaction by its type, and the store of the stakes that a
-- withdrawal returns later.
pub mod Dispatch
pub mod Returns
use Prim.Native.String
use theta_rosetta_rpc_adapto.Prelude.{
  ℕ, ◌+◌, ◌≡◌, String, Bool, true, false, Option, none, some, List, [], ◌∷◌, ◌++◌, ◌==◌, ◌=ˢ◌, ◌||◌,
  if◌then◌else◌,
}
use theta_rosetta_rpc_adapto.Prelude.Int.{ℤ}
use theta_rosetta_rpc_adapto.Digits.{Bytes}
use theta_rosetta_rpc_adapto.Go.{Go, ok, panic, ◌>>=◌, deref}
use theta_rosetta_rpc_adapto.Names.{TxType}
use theta_rosetta_rpc_adapto.Wire.{
  Hash, Coins, Metadata, Operation, Transaction, CoinbaseTx, SlashTx, SendTx, ReserveFundTx,
  ReleaseFundTx, ServicePaymentTx, SplitRuleTx, SmartContractTx, DepositStakeTx, WithdrawStakeTx,
  StakeRewardDistributionTx, BalanceChange, Theta,
}
use theta_rosetta_rpc_adapto.Parse.Transfers.{parse_coinbase_tx, parse_slash_tx, parse_send_tx}
use theta_rosetta_rpc_adapto.Parse.Funds.{
  parse_reserve_fund_tx, parse_release_fund_tx, parse_service_payment_tx, parse_split_rule_tx,
}
use theta_rosetta_rpc_adapto.Parse.Contracts.{parse_smart_contract_tx}
use theta_rosetta_rpc_adapto.Parse.Stakes.{
  parse_deposit_stake_tx, parse_withdraw_stake_tx, parse_stake_reward_distribution_tx,
}
use theta_rosetta_rpc_adapto.Store.Interface.{Store}
use theta_rosetta_rpc_adapto.StakeService.{
  Stake, Client, ReturnStakeTx, ReturnStakeTxs, Outcome, returned, failed, height_bytes,
  get_stake_for_tx,
}

-- `json.Unmarshal` of a raw transaction into the struct of its type; its error is dropped, so it
-- always leaves a struct.
pub record Decoder : Type 0 where
  pub coinbase : Bytes → CoinbaseTx
  pub slash : Bytes → SlashTx
  pub send : Bytes → SendTx
  pub reserve_fund : Bytes → ReserveFundTx
  pub release_fund : Bytes → ReleaseFundTx
  pub service_payment : Bytes → ServicePaymentTx
  pub split_rule : Bytes → SplitRuleTx
  pub smart_contract : Bytes → SmartContractTx
  pub deposit_stake : Bytes → DepositStakeTx
  pub withdraw_stake : Bytes → WithdrawStakeTx
  pub stake_reward_distribution : Bytes → StakeRewardDistributionTx

-- The loop that looks for the hash among the returns of a height.
unfoldable pub holds_hash : String → ReturnStakeTxs → Bool
holds_hash hash [] = false
holds_hash hash (r ∷ rs) = let rest = holds_hash hash rs in if hash =ˢ r.hash then true else rest

abbrev pub extend_returns : ReturnStakeTx → Option ReturnStakeTxs → ReturnStakeTxs
extend_returns r none = r ∷ []
extend_returns r (some rs) = if holds_hash r.hash rs then rs else rs ++ r ∷ []

-- A stake of a validator or guardian returns Theta, any other TFuel; the other amount is nil.
abbrev pub returned_coins : Bool → Option ℤ → Coins
returned_coins true amount = record { theta_wei = amount; tfuel_wei = none }
returned_coins false amount = record { theta_wei = none; tfuel_wei = amount }

abbrev pub with_source_coins : WithdrawStakeTx → Coins → WithdrawStakeTx
with_source_coins tx coins = record tx { source = record tx.source { coins = coins } }

-- The database and the service, where both are there: the node's answers.
abbrev pub Services : Type 0
Services = Option Client

module _ (θ : Theta) where
  abbrev pub return_of : WithdrawStakeTx → Hash → Stake → ReturnStakeTx
  return_of tx tx_hash stake = record {
    hash = θ.hash_hex tx_hash;
    tx = with_source_coins tx (
        returned_coins (tx.purpose == θ.stake_for_validator || tx.purpose == θ.stake_for_guardian)
          stake.amount);
  }

  module _ (store : Store ReturnStakeTxs) where
    -- A `Put` that fails is a panic.
    abbrev pub put_or_panic : Bytes → ReturnStakeTxs → store.State → Go store.State
    put_or_panic key rs s =
        let (written, s') = store.put key rs s in if written then ok s' else panic

    -- The stake is looked up at the block's height and stored for the height at which it returns. An
    -- error and a stake that was not found are both panics.
    unfoldable pub schedule_return :
        Client → WithdrawStakeTx → Hash → ℕ → store.State → Go store.State
    unfolding holds_hash
    schedule_return client tx tx_hash height s = do
      outcome ← get_stake_for_tx θ client tx height
      found ← (elim outcome [ returned found ↦ ok found | failed ↦ panic ])
      stake ← deref found
      let key = height_bytes (height + θ.return_locking_period)
      put_or_panic key (extend_returns (return_of tx tx_hash stake) (store.get key s)) s

    abbrev pub built : String → Metadata × List Operation → store.State → Transaction × store.State
    built hash (meta, ops) s = (record { hash = hash; metadata = meta; operations = ops }, s)

    -- The withdrawal's case: the hash of the transaction is another one.
    unfoldable pub parse_withdrawal :
        Option String
        → Services
        → WithdrawStakeTx
        → TxType
        → Hash
        → ℕ
        → store.State
        → Go (Transaction × store.State)
    unfolding schedule_return
    parse_withdrawal status services tx type tx_hash height s = do
      parsed ← parse_withdraw_stake_tx θ status tx type
      client ← deref services
      s' ← schedule_return client tx tx_hash height s
      ok (
          built
            (θ.hash_hex
              (θ.keccak256 (String.◌++◌ "stake_withdraw" (String.◌++◌ "_" (θ.hash_hex tx_hash)))))
            parsed s')

    module _ (decode : Decoder) where
      unfoldable pub parse_tx :
          TxType
          → Bytes
          → Hash
          → Option String
          → ℕ
          → Option (List BalanceChange)
          → Services
          → ℕ
          → store.State
          → Go (Transaction × store.State)
      unfolding parse_withdrawal
      parse_tx TxType.coinbase_tx raw tx_hash status gas changes services height s = ok (
          built (θ.hash_string tx_hash)
            (parse_coinbase_tx θ status (decode.coinbase raw) TxType.coinbase_tx) s)
      parse_tx TxType.slash_tx raw tx_hash status gas changes services height s = ok (
          built (θ.hash_string tx_hash) (parse_slash_tx θ status (decode.slash raw) TxType.slash_tx)
            s)
      parse_tx TxType.send_tx raw tx_hash status gas changes services height s = do
        parsed ← parse_send_tx θ status (decode.send raw) TxType.send_tx
        ok (built (θ.hash_string tx_hash) parsed s)
      parse_tx TxType.reserve_fund_tx raw tx_hash status gas changes services height s = do
        parsed ← parse_reserve_fund_tx θ status (decode.reserve_fund raw) TxType.reserve_fund_tx
        ok (built (θ.hash_string tx_hash) parsed s)
      parse_tx TxType.release_fund_tx raw tx_hash status gas changes services height s = do
        parsed ← parse_release_fund_tx θ status (decode.release_fund raw) TxType.release_fund_tx
        ok (built (θ.hash_string tx_hash) parsed s)
      parse_tx TxType.service_payment_tx raw tx_hash status gas changes services height s = do
        parsed ←
            parse_service_payment_tx θ status (decode.service_payment raw) TxType.service_payment_tx
        ok (built (θ.hash_string tx_hash) parsed s)
      parse_tx TxType.split_rule_tx raw tx_hash status gas changes services height s = do
        parsed ← parse_split_rule_tx θ status (decode.split_rule raw) TxType.split_rule_tx
        ok (built (θ.hash_string tx_hash) parsed s)
      parse_tx TxType.smart_contract_tx raw tx_hash status gas changes services height s = do
        parsed ←
            parse_smart_contract_tx θ status (decode.smart_contract raw) TxType.smart_contract_tx
              gas changes
        ok (built (θ.hash_string tx_hash) parsed s)
      parse_tx TxType.deposit_stake_tx raw tx_hash status gas changes services height s = do
        parsed ← parse_deposit_stake_tx θ status (decode.deposit_stake raw) TxType.deposit_stake_tx
        ok (built (θ.hash_string tx_hash) parsed s)
      parse_tx TxType.deposit_stake_v2_tx raw tx_hash status gas changes services height s = do
        parsed ←
            parse_deposit_stake_tx θ status (decode.deposit_stake raw) TxType.deposit_stake_v2_tx
        ok (built (θ.hash_string tx_hash) parsed s)
      parse_tx TxType.withdraw_stake_tx raw tx_hash status gas changes services height s =
          parse_withdrawal status services (decode.withdraw_stake raw) TxType.withdraw_stake_tx
            tx_hash height s
      parse_tx TxType.stake_reward_distribution_tx raw tx_hash status gas changes services height
            s =
          do
            parsed ←
                parse_stake_reward_distribution_tx θ status (decode.stake_reward_distribution raw)
                  TxType.stake_reward_distribution_tx
            ok (built (θ.hash_string tx_hash) parsed s)
      parse_tx (TxType.other_tx n) raw tx_hash status gas changes services height s =
          ok (built (θ.hash_string tx_hash) ([], []) s)
