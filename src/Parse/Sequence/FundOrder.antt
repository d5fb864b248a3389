-- ===== src/Parse/Sequence/FundOrder.antt =====
-- The operations of reserve-fund, release-fund, service-payment and split-rule transactions.
use theta_rosetta_rpc_adapto.Prelude.{
  ◌<◌, ◌≡◌, refl, ◌⊎◌, inl, inr, ◌↔◌, String, Option, none, some, arith, Option-cases,
}
use theta_rosetta_rpc_adapto.Prelude.Int.{ℤ}
use theta_rosetta_rpc_adapto.Go.{panic}
use theta_rosetta_rpc_adapto.Names.{TxType}
use theta_rosetta_rpc_adapto.Wire.{
  ReserveFundTx, ReleaseFundTx, ServicePaymentTx, SplitRuleTx, Theta,
}
use theta_rosetta_rpc_adapto.Parse.{no_ops, emit_coin}
use theta_rosetta_rpc_adapto.Parse.Funds.{
  reserve_source, reserve_operations, parse_reserve_fund_tx, release_source, release_operations,
  parse_release_fund_tx, parse_service_payment_tx, parse_split_rule_tx,
}
use theta_rosetta_rpc_adapto.Parse.Sequence.{
  IsSequenced, IsRunning, HasCoins, HasCoins-cases, Yields, stamp-IsPlaced, emit-IsRunning,
  emit_coin-IsRunning, emit_coin-next_pos, first_refers_ahead,
}

module _ (θ : Theta) (status : Option String) where
  reserve_source-IsRunning : (tx : ReserveFundTx) → IsRunning status (reserve_source θ status tx)
  unfolding reserve_source
  reserve_source-IsRunning tx =
      emit_coin-IsRunning status _ _ _
        (emit_coin-IsRunning status _ _ no_ops (tt, refl) (λ i z. refl) (λ i z. refl) (λ z h. tt))
        (λ i z. refl) (λ i z. refl) (λ z h. tt)

  reserve_source-next_pos :
      (tx : ReserveFundTx) → HasCoins tx.source.coins → 0 < (reserve_source θ status tx).next
  unfolding reserve_source
  reserve_source-next_pos tx (inl h) =
      emit_coin-next_pos status _ _ _ (inl (emit_coin-next_pos status _ _ no_ops (inr h)))
  reserve_source-next_pos tx (inr h) = emit_coin-next_pos status _ _ _ (inr h)

  reserve_operations-unsequenced :
      (fee : ℤ) (tx : ReserveFundTx)
      → tx.source.coins.theta_wei ≡ none
      → tx.source.coins.tfuel_wei ≡ none
      → ¬ IsSequenced status 0 (reserve_operations θ status fee tx)
  unfolding reserve_operations emit_coin
  reserve_operations-unsequenced fee tx t f = rw (t, f) (first_refers_ahead status _ refl)

  -- A reserve-fund transaction with a TFuel fee is parsed into operations in order exactly when its
  -- source has a Theta or a TFuel amount: with neither, the fee is operation 0 and relates to 1.
  pub parse_reserve_fund_tx-Yields_iff :
      (tx : ReserveFundTx) (type : TxType) (fee : ℤ)
      → tx.fee.tfuel_wei ≡ some fee
      → Yields status (parse_reserve_fund_tx θ status tx type) ↔ HasCoins tx.source.coins
  unfolding parse_reserve_fund_tx
  parse_reserve_fund_tx-Yields_iff tx type fee e = rw e (there, back)
    where
      back : HasCoins tx.source.coins → IsSequenced status 0 (reserve_operations θ status fee tx)
      back h =
          (emit-IsRunning status _ _ (reserve_source-IsRunning tx) refl refl
            (λ z. let p = reserve_source-next_pos tx h in absurd (omega arith))).0

      there : IsSequenced status 0 (reserve_operations θ status fee tx) → HasCoins tx.source.coins
      there s = elim (HasCoins-cases tx.source.coins) [
        | inl h ↦ h
        | inr (t, f) ↦ absurd (reserve_operations-unsequenced fee tx t f s)
      ]

  release_source-IsRunning : (tx : ReleaseFundTx) → IsRunning status (release_source θ status tx)
  unfolding release_source
  release_source-IsRunning tx =
      emit_coin-IsRunning status _ _ _
        (emit_coin-IsRunning status _ _ no_ops (tt, refl) (λ i z. refl) (λ i z. refl) (λ z h. tt))
        (λ i z. refl) (λ i z. refl) (λ z h. tt)

  release_source-next_pos :
      (tx : ReleaseFundTx) → HasCoins tx.source.coins → 0 < (release_source θ status tx).next
  unfolding release_source
  release_source-next_pos tx (inl h) =
      emit_coin-next_pos status _ _ _ (inl (emit_coin-next_pos status _ _ no_ops (inr h)))
  release_source-next_pos tx (inr h) = emit_coin-next_pos status _ _ _ (inr h)

  release_operations-unsequenced :
      (fee : ℤ) (tx : ReleaseFundTx)
      → tx.source.coins.theta_wei ≡ none
      → tx.source.coins.tfuel_wei ≡ none
      → ¬ IsSequenced status 0 (release_operations θ status fee tx)
  unfolding release_operations emit_coin
  release_operations-unsequenced fee tx t f = rw (t, f) (first_refers_ahead status _ refl)

  -- A release-fund transaction with a TFuel fee is parsed into operations in order exactly when its
  -- source has a Theta or a TFuel amount: with neither, the fee is operation 0 and relates to 1.
  pub parse_release_fund_tx-Yields_iff :
      (tx : ReleaseFundTx) (type : TxType) (fee : ℤ)
      → tx.fee.tfuel_wei ≡ some fee
      → Yields status (parse_release_fund_tx θ status tx type) ↔ HasCoins tx.source.coins
  unfolding parse_release_fund_tx
  parse_release_fund_tx-Yields_iff tx type fee e = rw e (there, back)
    where
      back : HasCoins tx.source.coins → IsSequenced status 0 (release_operations θ status fee tx)
      back h =
          (emit-IsRunning status _ _ (release_source-IsRunning tx) refl refl
            (λ z. let p = release_source-next_pos tx h in absurd (omega arith))).0

      there : IsSequenced status 0 (release_operations θ status fee tx) → HasCoins tx.source.coins
      there s = elim (HasCoins-cases tx.source.coins) [
        | inl h ↦ h
        | inr (t, f) ↦ absurd (release_operations-unsequenced fee tx t f s)
      ]

  -- A service payment whose source amount and fee are there is parsed into three operations in
  -- order; if either is nil it panics.
  pub parse_service_payment_tx-Yields :
      (tx : ServicePaymentTx) (type : TxType)
      → ((a fee : ℤ)
          → tx.source.coins.tfuel_wei ≡ some a
          → tx.fee.tfuel_wei ≡ some fee
          → Yields status (parse_service_payment_tx θ status tx type))
        × ((tx.source.coins.tfuel_wei ≡ none) ⊎ (tx.fee.tfuel_wei ≡ none)
            → parse_service_payment_tx θ status tx type ≡ panic)
  unfolding parse_service_payment_tx
  parse_service_payment_tx-Yields tx type = (in_order, nil_panics)
    where
      in_order :
          (a fee : ℤ)
          → tx.source.coins.tfuel_wei ≡ some a
          → tx.fee.tfuel_wei ≡ some fee
          → Yields status (parse_service_payment_tx θ status tx type)
      in_order a fee p q =
          rw (p, q)
            (
              stamp-IsPlaced status 0 _ refl (inl refl) tt,
              (
                stamp-IsPlaced status 1 _ refl (inl refl) (omega arith, tt),
                (stamp-IsPlaced status 2 _ refl (inl refl) (omega arith, tt), tt),
              ),
            )

      nil_panics :
          (tx.source.coins.tfuel_wei ≡ none) ⊎ (tx.fee.tfuel_wei ≡ none)
          → parse_service_payment_tx θ status tx type ≡ panic
      nil_panics (inl p) = rw p
      nil_panics (inr q) = elim (Option-cases tx.source.coins.tfuel_wei) [
        | inl p ↦ rw p
        | inr (a, p) ↦ rw (p, q)
      ]

  pub parse_split_rule_tx-Yields :
      (tx : SplitRuleTx) (type : TxType) (fee : ℤ)
      → tx.fee.tfuel_wei ≡ some fee
      → Yields status (parse_split_rule_tx θ status tx type)
  unfolding parse_split_rule_tx
  parse_split_rule_tx-Yields tx type fee q = rw q (
    stamp-IsPlaced status 0 _ refl (inl refl) tt,
    (stamp-IsPlaced status 1 _ refl (inl refl) (omega arith, tt), tt),
  )
