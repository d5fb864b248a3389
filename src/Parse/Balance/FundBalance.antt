-- ===== src/Parse/Balance/FundBalance.antt =====
-- What the operations of the remaining transactions add up to.
use theta_rosetta_rpc_adapto.Prelude.{
  ℕ, ◌≡◌, refl, String, Option, none, some, List, [], ◌∷◌, ◌∙◌, ap, true, false, ◌=ˢ◌,
}
use theta_rosetta_rpc_adapto.Prelude.Int.{ℤ, pos, ◌+ℤ◌, neg, int_laws}
use theta_rosetta_rpc_adapto.Digits.{big_string}
use theta_rosetta_rpc_adapto.Go.{ok}
use theta_rosetta_rpc_adapto.Names.{TxType}
use theta_rosetta_rpc_adapto.Wire.{
  Metadata, Operation, DepositStakeTx, WithdrawStakeTx, ReserveFundTx, ReleaseFundTx, Theta,
}
use theta_rosetta_rpc_adapto.Parse.{Emitter, no_ops, fee_operation, emit_coin}
use theta_rosetta_rpc_adapto.Parse.Transfers.{or_zero}
use theta_rosetta_rpc_adapto.Parse.Funds.{
  reserve_source, reserve_operations, reserve_metadata, parse_reserve_fund_tx, release_source,
  release_operations, release_metadata, parse_release_fund_tx,
}
use theta_rosetta_rpc_adapto.Parse.Stakes.{
  deposit_source, deposit_operations, deposit_metadata, parse_deposit_stake_tx, return_operations,
  parse_return_stake_tx,
}
use theta_rosetta_rpc_adapto.Parse.Balance.{net, net-emit_same, net-emit_other, parts}

-- A coin that is emitted with `sign` adds its signed amount in its own currency; a nil one adds
-- nothing.
module _ (symbol : String) (status : Option String) (build : ℕ → ℤ → Operation) (sign : ℤ → ℤ)
    (printed : (i : ℕ) (z : ℤ) → (build i z).amount.value ≡ big_string (sign z))
    (sign_zero : sign (pos 0) ≡ pos 0) where
  net-emit_coin_same :
      (coin : Option ℤ) (e : Emitter)
      → ((i : ℕ) (z : ℤ) → ((build i z).amount.currency.symbol =ˢ symbol) ≡ true)
      → net symbol (emit_coin status coin build e).ops ≡ net symbol e.ops +ℤ sign (or_zero coin)
  unfolding emit_coin
  net-emit_coin_same none e h = omega (int_laws, parts sign_zero)
  net-emit_coin_same (some z) e h =
      net-emit_same symbol status (build e.next z) e (sign z) (printed e.next z) (h e.next z)

module _ (symbol : String) (status : Option String) (build : ℕ → ℤ → Operation) (sign : ℤ → ℤ)
    (printed : (i : ℕ) (z : ℤ) → (build i z).amount.value ≡ big_string (sign z)) where
  net-emit_coin_other :
      (coin : Option ℤ) (e : Emitter)
      → ((i : ℕ) (z : ℤ) → ((build i z).amount.currency.symbol =ˢ symbol) ≡ false)
      → net symbol (emit_coin status coin build e).ops ≡ net symbol e.ops
  unfolding emit_coin
  net-emit_coin_other none e h = refl
  net-emit_coin_other (some z) e h =
      let same =
        net-emit_other symbol status (build e.next z) e (sign z) (printed e.next z) (h e.next z) in
      omega (int_laws, parts same)

zero-plus : (z : ℤ) → pos 0 +ℤ z ≡ z
zero-plus z = omega int_laws

abbrev same_sign : ℤ → ℤ
same_sign z = z

module _ (θ : Theta) (status : Option String) where
  deposit_source-net :
      (tx : DepositStakeTx)
      → (net "THETA" (deposit_source θ status tx).ops ≡ neg (or_zero tx.source.coins.theta_wei))
        × (net "TFUEL" (deposit_source θ status tx).ops ≡ neg (or_zero tx.source.coins.tfuel_wei))
  unfolding deposit_source net neg
  deposit_source-net tx = (
    net-emit_coin_other "THETA" status _ neg (λ i z. refl) tx.source.coins.tfuel_wei _ (λ i z. refl)
        ∙ net-emit_coin_same "THETA" status _ neg (λ i z. refl) refl tx.source.coins.theta_wei
            no_ops (λ i z. refl)
        ∙ zero-plus _,
    net-emit_coin_same "TFUEL" status _ neg (λ i z. refl) refl tx.source.coins.tfuel_wei _
          (λ i z. refl)
        ∙ ap (λ z. z +ℤ neg (or_zero tx.source.coins.tfuel_wei))
            (net-emit_coin_other "TFUEL" status _ neg (λ i z. refl) tx.source.coins.theta_wei no_ops
              (λ i z. refl))
        ∙ zero-plus _,
  )

  return_operations-net :
      (tx : WithdrawStakeTx)
      → (net "THETA" (return_operations θ status tx).ops
          ≡ same_sign (or_zero tx.source.coins.theta_wei))
        × (net "TFUEL" (return_operations θ status tx).ops
            ≡ same_sign (or_zero tx.source.coins.tfuel_wei))
  unfolding return_operations net
  return_operations-net tx = (
    net-emit_coin_other "THETA" status _ same_sign (λ i z. refl) tx.source.coins.tfuel_wei _
          (λ i z. refl)
        ∙ net-emit_coin_same "THETA" status _ same_sign (λ i z. refl) refl tx.source.coins.theta_wei
            no_ops (λ i z. refl)
        ∙ zero-plus _,
    net-emit_coin_same "TFUEL" status _ same_sign (λ i z. refl) refl tx.source.coins.tfuel_wei _
          (λ i z. refl)
        ∙ ap (λ z. z +ℤ same_sign (or_zero tx.source.coins.tfuel_wei))
            (net-emit_coin_other "TFUEL" status _ same_sign (λ i z. refl) tx.source.coins.theta_wei
              no_ops (λ i z. refl))
        ∙ zero-plus _,
  )

  reserve_source-net :
      (tx : ReserveFundTx)
      → (net "THETA" (reserve_source θ status tx).ops ≡ neg (or_zero tx.source.coins.theta_wei))
        × (net "TFUEL" (reserve_source θ status tx).ops ≡ neg (or_zero tx.source.coins.tfuel_wei))
  unfolding reserve_source net neg
  reserve_source-net tx = (
    net-emit_coin_other "THETA" status _ neg (λ i z. refl) tx.source.coins.tfuel_wei _ (λ i z. refl)
        ∙ net-emit_coin_same "THETA" status _ neg (λ i z. refl) refl tx.source.coins.theta_wei
            no_ops (λ i z. refl)
        ∙ zero-plus _,
    net-emit_coin_same "TFUEL" status _ neg (λ i z. refl) refl tx.source.coins.tfuel_wei _
          (λ i z. refl)
        ∙ ap (λ z. z +ℤ neg (or_zero tx.source.coins.tfuel_wei))
            (net-emit_coin_other "TFUEL" status _ neg (λ i z. refl) tx.source.coins.theta_wei no_ops
              (λ i z. refl))
        ∙ zero-plus _,
  )

  release_source-net :
      (tx : ReleaseFundTx)
      → (net "THETA" (release_source θ status tx).ops
          ≡ same_sign (or_zero tx.source.coins.theta_wei))
        × (net "TFUEL" (release_source θ status tx).ops ≡ neg (or_zero tx.source.coins.tfuel_wei))
  unfolding release_source net neg
  release_source-net tx = (
    net-emit_coin_other "THETA" status _ neg (λ i z. refl) tx.source.coins.tfuel_wei _ (λ i z. refl)
        ∙ net-emit_coin_same "THETA" status _ same_sign (λ i z. refl) refl tx.source.coins.theta_wei
            no_ops (λ i z. refl)
        ∙ zero-plus _,
    net-emit_coin_same "TFUEL" status _ neg (λ i z. refl) refl tx.source.coins.tfuel_wei _
          (λ i z. refl)
        ∙ ap (λ z. z +ℤ neg (or_zero tx.source.coins.tfuel_wei))
            (net-emit_coin_other "TFUEL" status _ same_sign (λ i z. refl) tx.source.coins.theta_wei
              no_ops (λ i z. refl))
        ∙ zero-plus _,
  )

  deposit_operations-net :
      (fee : ℤ) (tx : DepositStakeTx)
      → (net "THETA" (deposit_operations θ status fee tx) ≡ neg (or_zero tx.source.coins.theta_wei))
        × (net "TFUEL" (deposit_operations θ status fee tx)
            ≡ neg (or_zero tx.source.coins.tfuel_wei +ℤ fee))
  unfolding deposit_operations
  deposit_operations-net fee tx =
      let e = deposit_source θ status tx in
      let op = fee_operation e.next (θ.address_string tx.source.address) fee in
      (
        omega (
          int_laws,
          parts (net-emit_other "THETA" status op e (neg fee) refl refl),
          parts (deposit_source-net tx).0,
        ),
        omega (
          int_laws,
          parts (net-emit_same "TFUEL" status op e (neg fee) refl refl),
          parts (deposit_source-net tx).1,
        ),
      )

  -- The printed amounts of a deposit with a TFuel fee, read back and summed, are minus the source's
  -- Theta, and minus its TFuel and the fee.
  pub parse_deposit_stake_tx-net :
      (tx : DepositStakeTx) (type : TxType) (fee : ℤ)
      → tx.fee.tfuel_wei ≡ some fee
      → (r : Metadata × List Operation) × (parse_deposit_stake_tx θ status tx type ≡ ok r)
        × (net "THETA" r.1 ≡ neg (or_zero tx.source.coins.theta_wei))
        × (net "TFUEL" r.1 ≡ neg (or_zero tx.source.coins.tfuel_wei +ℤ fee))
  unfolding parse_deposit_stake_tx
  parse_deposit_stake_tx-net tx type fee e =
      let (theta, tfuel) = deposit_operations-net fee tx in
      ((deposit_metadata tx type, deposit_operations θ status fee tx), rw e, theta, tfuel)

  reserve_operations-net :
      (fee : ℤ) (tx : ReserveFundTx)
      → (net "THETA" (reserve_operations θ status fee tx) ≡ neg (or_zero tx.source.coins.theta_wei))
        × (net "TFUEL" (reserve_operations θ status fee tx)
            ≡ neg (or_zero tx.source.coins.tfuel_wei +ℤ fee))
  unfolding reserve_operations
  reserve_operations-net fee tx =
      let e = reserve_source θ status tx in
      let op = record (fee_operation e.next (θ.address_string tx.source.address) fee) {
        related = pos 1 ∷ [];
      } in
      (
        omega (
          int_laws,
          parts (net-emit_other "THETA" status op e (neg fee) refl refl),
          parts (reserve_source-net tx).0,
        ),
        omega (
          int_laws,
          parts (net-emit_same "TFUEL" status op e (neg fee) refl refl),
          parts (reserve_source-net tx).1,
        ),
      )

  -- The printed amounts of a reserve-fund transaction with a TFuel fee, read back and summed, are
  -- minus the source's Theta, and minus its TFuel and the fee.
  pub parse_reserve_fund_tx-net :
      (tx : ReserveFundTx) (type : TxType) (fee : ℤ)
      → tx.fee.tfuel_wei ≡ some fee
      → (r : Metadata × List Operation) × (parse_reserve_fund_tx θ status tx type ≡ ok r)
        × (net "THETA" r.1 ≡ neg (or_zero tx.source.coins.theta_wei))
        × (net "TFUEL" r.1 ≡ neg (or_zero tx.source.coins.tfuel_wei +ℤ fee))
  unfolding parse_reserve_fund_tx
  parse_reserve_fund_tx-net tx type fee e =
      let (theta, tfuel) = reserve_operations-net fee tx in
      ((reserve_metadata tx type, reserve_operations θ status fee tx), rw e, theta, tfuel)

  release_operations-net :
      (fee : ℤ) (tx : ReleaseFundTx)
      → (net "THETA" (release_operations θ status fee tx) ≡ or_zero tx.source.coins.theta_wei)
        × (net "TFUEL" (release_operations θ status fee tx)
            ≡ neg (or_zero tx.source.coins.tfuel_wei +ℤ fee))
  unfolding release_operations
  release_operations-net fee tx =
      let e = release_source θ status tx in
      let op = record (fee_operation e.next (θ.address_string tx.source.address) fee) {
        related = pos 1 ∷ [];
      } in
      (
        omega (
          int_laws,
          parts (net-emit_other "THETA" status op e (neg fee) refl refl),
          parts (release_source-net tx).0,
        ),
        omega (
          int_laws,
          parts (net-emit_same "TFUEL" status op e (neg fee) refl refl),
          parts (release_source-net tx).1,
        ),
      )

  -- The printed amounts of a release-fund transaction with a TFuel fee, read back and summed, are
  -- the source's Theta with its own sign, and minus its TFuel and the fee.
  pub parse_release_fund_tx-net :
      (tx : ReleaseFundTx) (type : TxType) (fee : ℤ)
      → tx.fee.tfuel_wei ≡ some fee
      → (r : Metadata × List Operation) × (parse_release_fund_tx θ status tx type ≡ ok r)
        × (net "THETA" r.1 ≡ or_zero tx.source.coins.theta_wei)
        × (net "TFUEL" r.1 ≡ neg (or_zero tx.source.coins.tfuel_wei +ℤ fee))
  unfolding parse_release_fund_tx
  parse_release_fund_tx-net tx type fee e =
      let (theta, tfuel) = release_operations-net fee tx in
      ((release_metadata tx type, release_operations θ status fee tx), rw e, theta, tfuel)

  -- The printed amounts of a returned stake, read back and summed, are the source's Theta and its
  -- TFuel.
  pub parse_return_stake_tx-net :
      (tx : WithdrawStakeTx) (type : TxType)
      → (net "THETA" (parse_return_stake_tx θ status tx type).1 ≡ or_zero tx.source.coins.theta_wei)
        × (net "TFUEL" (parse_return_stake_tx θ status tx type).1
            ≡ or_zero tx.source.coins.tfuel_wei)
  unfolding parse_return_stake_tx
  parse_return_stake_tx-net tx type = return_operations-net tx
