-- ===== src/Parse/Sequence/StakeOrder.antt =====
-- The operations of stake deposits, withdrawals, returns and reward distributions.
use theta_rosetta_rpc_adapto.Prelude.{
  ℕ, ◌≡◌, ◌≢◌, refl, ◌⊎◌, inl, inr, ◌↔◌, String, Option, none, some, [], ◌∷◌,
}
use theta_rosetta_rpc_adapto.Prelude.Int.{ℤ, negsuc, ◌-ℤ◌}
use theta_rosetta_rpc_adapto.Names.{TxType}
use theta_rosetta_rpc_adapto.Wire.{
  Operation, DepositStakeTx, WithdrawStakeTx, StakeRewardDistributionTx, Theta,
}
use theta_rosetta_rpc_adapto.Parse.{no_ops, emit_coin}
use theta_rosetta_rpc_adapto.Parse.Stakes.{
  deposit_source, parse_deposit_stake_tx, parse_withdraw_stake_tx, parse_return_stake_tx,
  reward_operations, parse_stake_reward_distribution_tx,
}
use theta_rosetta_rpc_adapto.Parse.Sequence.{
  IsSequenced, IsRunning, HasCoins, HasCoins-cases, Yields, stamp-IsPlaced, emit-IsRunning,
  emit_coin-IsRunning, emit_coin-IsSequenced_before, emit-IsSequenced_before, first_refers_below,
}

-- Of two coins, the first that is there relates to the index before 0.
coins_refer_below :
    (status : Option String) (theta tfuel : Option ℤ) (b c : ℕ → ℤ → Operation)
    → ((z : ℤ) → (b 0 z).related ≡ negsuc 0 ∷ [])
    → ((z : ℤ) → (c 0 z).related ≡ negsuc 0 ∷ [])
    → (theta ≢ none) ⊎ (tfuel ≢ none)
    → ¬ IsSequenced status 0 (emit_coin status tfuel c (emit_coin status theta b no_ops)).ops
unfolding emit_coin
coins_refer_below status (some z) tfuel b c rb rc h s =
    first_refers_below status (b 0 z) (rb z) (emit_coin-IsSequenced_before status tfuel c _ s)
coins_refer_below status none (some z) b c rb rc h s = first_refers_below status (c 0 z) (rc z) s
coins_refer_below status none none b c rb rc (inl h) s = h refl
coins_refer_below status none none b c rb rc (inr h) s = h refl

module _ (θ : Theta) (status : Option String) where
  deposit_source-IsRunning : (tx : DepositStakeTx) → IsRunning status (deposit_source θ status tx)
  unfolding deposit_source
  deposit_source-IsRunning tx =
      emit_coin-IsRunning status _ _ _
        (emit_coin-IsRunning status _ _ no_ops (tt, refl) (λ i z. refl) (λ i z. refl) (λ z h. tt))
        (λ i z. refl) (λ i z. refl) (λ z h. tt)

  -- A deposit with a TFuel fee is parsed without a panic into operations in order.
  pub parse_deposit_stake_tx-Yields :
      (tx : DepositStakeTx) (type : TxType) (fee : ℤ)
      → tx.fee.tfuel_wei ≡ some fee
      → Yields status (parse_deposit_stake_tx θ status tx type)
  unfolding parse_deposit_stake_tx
  parse_deposit_stake_tx-Yields tx type fee e =
      rw e (emit-IsRunning status _ _ (deposit_source-IsRunning tx) refl refl (λ z. tt)).0

  pub parse_withdraw_stake_tx-Yields :
      (tx : WithdrawStakeTx) (type : TxType) (fee : ℤ)
      → tx.fee.tfuel_wei ≡ some fee
      → Yields status (parse_withdraw_stake_tx θ status tx type)
  unfolding parse_withdraw_stake_tx
  parse_withdraw_stake_tx-Yields tx type fee e =
      rw e (stamp-IsPlaced status 0 _ refl (inl refl) tt, tt)

  -- A returned stake is parsed into operations in order, though the source does not count the last.
  pub parse_return_stake_tx-IsSequenced :
      (tx : WithdrawStakeTx) (type : TxType)
      → IsSequenced status 0 (parse_return_stake_tx θ status tx type).1
  unfolding parse_return_stake_tx
  parse_return_stake_tx-IsSequenced tx type =
      (emit_coin-IsRunning status _ _ _
        (emit_coin-IsRunning status _ _ no_ops (tt, refl) (λ i z. refl) (λ i z. refl) (λ z h. tt))
        (λ i z. refl) (λ i z. refl) (λ z h. tt)).0

  reward_operations-unsequenced :
      (fee : ℤ) (tx : StakeRewardDistributionTx)
      → HasCoins tx.beneficiary.coins
      → ¬ IsSequenced status 0 (reward_operations θ status fee tx)
  unfolding reward_operations ◌-ℤ◌
  reward_operations-unsequenced fee tx h s =
      coins_refer_below status tx.beneficiary.coins.theta_wei tx.beneficiary.coins.tfuel_wei _ _
        (λ z. refl) (λ z. refl) h (emit-IsSequenced_before status _ _ s)

  reward_operations-IsSequenced :
      (fee : ℤ) (tx : StakeRewardDistributionTx)
      → tx.beneficiary.coins.theta_wei ≡ none
      → tx.beneficiary.coins.tfuel_wei ≡ none
      → IsSequenced status 0 (reward_operations θ status fee tx)
  unfolding reward_operations emit_coin
  reward_operations-IsSequenced fee tx t f =
      rw (t, f) (emit-IsRunning status _ no_ops (tt, refl) refl refl (λ z. tt)).0

  -- A reward distribution with a TFuel fee is parsed into operations in order exactly when the
  -- beneficiary's amounts are both nil: otherwise operation 0 relates to index -1.
  pub parse_stake_reward_distribution_tx-Yields_iff :
      (tx : StakeRewardDistributionTx) (type : TxType) (fee : ℤ)
      → tx.fee.tfuel_wei ≡ some fee
      → Yields status (parse_stake_reward_distribution_tx θ status tx type)
        ↔ (¬ HasCoins tx.beneficiary.coins)
  unfolding parse_stake_reward_distribution_tx
  parse_stake_reward_distribution_tx-Yields_iff tx type fee e = rw e (there, back)
    where
      there :
          IsSequenced status 0 (reward_operations θ status fee tx) → ¬ HasCoins tx.beneficiary.coins
      there s h = reward_operations-unsequenced fee tx h s

      back :
          (¬ HasCoins tx.beneficiary.coins)
          → IsSequenced status 0 (reward_operations θ status fee tx)
      back h = elim (HasCoins-cases tx.beneficiary.coins) [
        | inl c ↦ absurd (h c)
        | inr (t, f) ↦ reward_operations-IsSequenced fee tx t f
      ]
