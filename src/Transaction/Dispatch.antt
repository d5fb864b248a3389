-- ===== src/Transaction/Dispatch.antt =====
-- What `ParseTx` gives for every type of transaction but the withdrawal.
use theta_rosetta_rpc_adapto.Prelude.{
  ℕ, ◌<◌, ◌≡◌, ◌≢◌, refl, String, Option, none, some, List, length, All, ◌⊎◌,
}
use theta_rosetta_rpc_adapto.Prelude.Int.{ℤ}
use theta_rosetta_rpc_adapto.Digits.{Bytes}
use theta_rosetta_rpc_adapto.Go.{Go, ok, panic, ◌>>=◌}
use theta_rosetta_rpc_adapto.Names.{TxType}
use theta_rosetta_rpc_adapto.Wire.{
  Hash, Coins, Metadata, Operation, Transaction, BalanceChange, Theta,
}
use theta_rosetta_rpc_adapto.Parse.Sequence.{IsSequenced, Yields, HasCoins}
use theta_rosetta_rpc_adapto.Parse.Sequence.TransferOrder.{
  parse_coinbase_tx-IsSequenced, parse_slash_tx-IsSequenced, parse_send_tx-Yields,
}
use theta_rosetta_rpc_adapto.Parse.Sequence.FundOrder.{
  parse_reserve_fund_tx-Yields_iff, parse_release_fund_tx-Yields_iff,
  parse_service_payment_tx-Yields, parse_split_rule_tx-Yields,
}
use theta_rosetta_rpc_adapto.Parse.Sequence.ContractOrder.{HasDelta, parse_smart_contract_tx-Yields}
use theta_rosetta_rpc_adapto.Parse.Sequence.StakeOrder.{
  parse_deposit_stake_tx-Yields, parse_stake_reward_distribution_tx-Yields_iff,
}
use theta_rosetta_rpc_adapto.Store.Interface.{Store}
use theta_rosetta_rpc_adapto.StakeService.{ReturnStakeTxs, Client}
use theta_rosetta_rpc_adapto.Transaction.{Decoder, built, parse_tx}

-- A fee that is there.
abbrev pub HasFee : Coins → Type 0
HasFee coins = (fee : ℤ) × (coins.tfuel_wei ≡ some fee)

-- What a transaction that is no withdrawal must have for its operations to be in order.
abbrev pub IsComplete : Decoder → TxType → Bytes → ℕ → Option (List BalanceChange) → Type 0
IsComplete decode TxType.coinbase_tx raw gas changes = Unit
IsComplete decode TxType.slash_tx raw gas changes = Unit
IsComplete decode TxType.send_tx raw gas changes =
    HasFee (decode.send raw).fee × (0 < length (decode.send raw).inputs)
IsComplete decode TxType.reserve_fund_tx raw gas changes =
    HasFee (decode.reserve_fund raw).fee × HasCoins (decode.reserve_fund raw).source.coins
IsComplete decode TxType.release_fund_tx raw gas changes =
    HasFee (decode.release_fund raw).fee × HasCoins (decode.release_fund raw).source.coins
IsComplete decode TxType.service_payment_tx raw gas changes =
    HasFee (decode.service_payment raw).source.coins × HasFee (decode.service_payment raw).fee
IsComplete decode TxType.split_rule_tx raw gas changes = HasFee (decode.split_rule raw).fee
IsComplete decode TxType.smart_contract_tx raw gas changes =
    ((cs : List BalanceChange) × (changes ≡ some cs) × All HasDelta cs)
    × ((gas ≡ 0) ⊎ ((decode.smart_contract raw).gas_price ≢ none))
IsComplete decode TxType.deposit_stake_tx raw gas changes = HasFee (decode.deposit_stake raw).fee
IsComplete decode TxType.deposit_stake_v2_tx raw gas changes = HasFee (decode.deposit_stake raw).fee
IsComplete decode TxType.withdraw_stake_tx raw gas changes = ⊥
IsComplete decode TxType.stake_reward_distribution_tx raw gas changes =
    HasFee (decode.stake_reward_distribution raw).fee
    × (¬ HasCoins (decode.stake_reward_distribution raw).beneficiary.coins)
IsComplete decode (TxType.other_tx n) raw gas changes = Unit

module _ (θ : Theta) (store : Store ReturnStakeTxs) where
  -- A transaction with the given hash and, in order, its operations; and the store as it was.
  abbrev pub Answers :
      Option String → String → store.State → Go (Transaction × store.State) → Type 0
  Answers status hash s (ok (t, s')) =
      (t.hash ≡ hash) × (s' ≡ s) × IsSequenced status 0 t.operations
  Answers status hash s panic = ⊥

  -- The given hash and the store as it was, unless there is a panic.
  abbrev pub Keeps : String → store.State → Go (Transaction × store.State) → Type 0
  Keeps hash s (ok (t, s')) = (t.hash ≡ hash) × (s' ≡ s)
  Keeps hash s panic = Unit

  Answers-bind :
      (status : Option String) (hash : String) (s : store.State)
      (m : Go (Metadata × List Operation))
      → Yields status m
      → Answers status hash s (m >>= λ parsed. ok (built θ store hash parsed s))
  Answers-bind status hash s (ok (meta, ops)) y = (refl, refl, y)
  Answers-bind status hash s panic y = absurd y

  Keeps-bind :
      (hash : String) (s : store.State) (m : Go (Metadata × List Operation))
      → Keeps hash s (m >>= λ parsed. ok (built θ store hash parsed s))
  Keeps-bind hash s (ok (meta, ops)) = (refl, refl)
  Keeps-bind hash s panic = tt

  module _ (decode : Decoder) where
    pub parse_tx-Answers :
        (type : TxType) (raw : Bytes) (tx_hash : Hash) (status : Option String) (gas : ℕ)
        (changes : Option (List BalanceChange)) (services : Option Client) (height : ℕ)
        (s : store.State)
        → IsComplete decode type raw gas changes
        → Answers status
            (θ.hash_string tx_hash)
            s
            (parse_tx θ store decode type raw tx_hash status gas changes services height s)
    unfolding parse_tx
    parse_tx-Answers TxType.coinbase_tx raw tx_hash status gas changes services height s h =
        (refl, refl, parse_coinbase_tx-IsSequenced θ status _ _)
    parse_tx-Answers TxType.slash_tx raw tx_hash status gas changes services height s h =
        (refl, refl, parse_slash_tx-IsSequenced θ status _ _)
    parse_tx-Answers TxType.send_tx raw tx_hash status gas changes services height s ((fee, f), p) =
        Answers-bind status _ s _ ((parse_send_tx-Yields θ status _ _ p).0 fee f)
    parse_tx-Answers TxType.reserve_fund_tx raw tx_hash status gas changes services height s
          ((fee, f), c) =
        Answers-bind status _ s _ ((parse_reserve_fund_tx-Yields_iff θ status _ _ fee f).1 c)
    parse_tx-Answers TxType.release_fund_tx raw tx_hash status gas changes services height s
          ((fee, f), c) =
        Answers-bind status _ s _ ((parse_release_fund_tx-Yields_iff θ status _ _ fee f).1 c)
    parse_tx-Answers TxType.service_payment_tx raw tx_hash status gas changes services height s
          ((a, p), (fee, f)) =
        Answers-bind status _ s _ ((parse_service_payment_tx-Yields θ status _ _).0 a fee p f)
    parse_tx-Answers TxType.split_rule_tx raw tx_hash status gas changes services height s
          (fee, f) =
        Answers-bind status _ s _ (parse_split_rule_tx-Yields θ status _ _ fee f)
    parse_tx-Answers TxType.smart_contract_tx raw tx_hash status gas changes services height s
          ((cs, c, d), p) =
        rw c (Answers-bind status _ s _ (parse_smart_contract_tx-Yields θ status _ _ gas cs d p))
    parse_tx-Answers TxType.deposit_stake_tx raw tx_hash status gas changes services height s
          (fee, f) =
        Answers-bind status _ s _ (parse_deposit_stake_tx-Yields θ status _ _ fee f)
    parse_tx-Answers TxType.deposit_stake_v2_tx raw tx_hash status gas changes services height s
          (fee, f) =
        Answers-bind status _ s _ (parse_deposit_stake_tx-Yields θ status _ _ fee f)
    parse_tx-Answers TxType.withdraw_stake_tx raw tx_hash status gas changes services height s h =
        absurd h
    parse_tx-Answers TxType.stake_reward_distribution_tx raw tx_hash status gas changes services
          height s ((fee, f), c) =
        Answers-bind status _ s _
          ((parse_stake_reward_distribution_tx-Yields_iff θ status _ _ fee f).1 c)
    parse_tx-Answers (TxType.other_tx n) raw tx_hash status gas changes services height s h =
        (refl, refl, tt)

    -- No transaction but a withdrawal changes the store or has another hash than the ledger's,
    -- complete or not.
    pub parse_tx-Keeps :
        (type : TxType) (raw : Bytes) (tx_hash : Hash) (status : Option String) (gas : ℕ)
        (changes : Option (List BalanceChange)) (services : Option Client) (height : ℕ)
        (s : store.State)
        → type ≢ TxType.withdraw_stake_tx
        → Keeps
            (θ.hash_string tx_hash)
            s
            (parse_tx θ store decode type raw tx_hash status gas changes services height s)
    unfolding parse_tx
    parse_tx-Keeps TxType.coinbase_tx raw tx_hash status gas changes services height s n =
        (refl, refl)
    parse_tx-Keeps TxType.slash_tx raw tx_hash status gas changes services height s n = (refl, refl)
    parse_tx-Keeps TxType.withdraw_stake_tx raw tx_hash status gas changes services height s n =
        absurd (n refl)
    parse_tx-Keeps (TxType.other_tx k) raw tx_hash status gas changes services height s n =
        (refl, refl)
    parse_tx-Keeps TxType.send_tx raw tx_hash status gas changes services height s n =
        Keeps-bind _ s _
    parse_tx-Keeps TxType.reserve_fund_tx raw tx_hash status gas changes services height s n =
        Keeps-bind _ s _
    parse_tx-Keeps TxType.release_fund_tx raw tx_hash status gas changes services height s n =
        Keeps-bind _ s _
    parse_tx-Keeps TxType.service_payment_tx raw tx_hash status gas changes services height s n =
        Keeps-bind _ s _
    parse_tx-Keeps TxType.split_rule_tx raw tx_hash status gas changes services height s n =
        Keeps-bind _ s _
    parse_tx-Keeps TxType.smart_contract_tx raw tx_hash status gas changes services height s n =
        Keeps-bind _ s _
    parse_tx-Keeps TxType.deposit_stake_tx raw tx_hash status gas changes services height s n =
        Keeps-bind _ s _
    parse_tx-Keeps TxType.deposit_stake_v2_tx raw tx_hash status gas changes services height s n =
        Keeps-bind _ s _
    parse_tx-Keeps TxType.stake_reward_distribution_tx raw tx_hash status gas changes services
          height s n =
        Keeps-bind _ s _
