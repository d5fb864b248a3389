-- ===== src/Block/Withdrawn.antt =====
-- A withdrawal: what its own transaction and the return that it stores come to, and when it panics.
use theta_rosetta_rpc_adapto.Prelude.{
  ℕ, ◌≤◌, ◌≡◌, ◌≢◌, refl, sym, ap, ◌∙◌, String, Bool, true, false, Option, none, some, List, [],
  ◌∷◌, ◌++◌, ◌==◌, ◌||◌, Bool-cases, inl, inr, ◌⊎◌, ◌↔◌, arith,
}
use theta_rosetta_rpc_adapto.Prelude.Int.{ℤ, pos, neg, int_laws}
use theta_rosetta_rpc_adapto.Go.{ok, panic}
use theta_rosetta_rpc_adapto.Names.{TxType}
use theta_rosetta_rpc_adapto.Digits.{Bytes}
use theta_rosetta_rpc_adapto.Digits.RoundTrip.{set_string-big_string}
use theta_rosetta_rpc_adapto.Wire.{Hash, WithdrawStakeTx, Transaction, Operation, Theta}
use theta_rosetta_rpc_adapto.Rpc.{Reply}
use theta_rosetta_rpc_adapto.Parse.{fee_operation, set_status}
use theta_rosetta_rpc_adapto.Parse.Transfers.{or_zero}
use theta_rosetta_rpc_adapto.Parse.Balance.{net}
use theta_rosetta_rpc_adapto.Parse.Balance.FundBalance.{parse_return_stake_tx-net}
use theta_rosetta_rpc_adapto.Store.Interface.{Store}
use theta_rosetta_rpc_adapto.StakeService.{
  Stake, PoolPair, StakeHolder, Client, ReturnStakeTx, ReturnStakeTxs, returned, get_stake_for_tx,
}
use theta_rosetta_rpc_adapto.StakeService.Lookup.{
  first, stakes_from, stakes_under, get_stake_for_tx-eq-first,
}
use theta_rosetta_rpc_adapto.Transaction.{
  holds_hash, extend_returns, returned_coins, return_of, parse_withdrawal,
}
use theta_rosetta_rpc_adapto.Transaction.Returns.{
  return_key, scheduled, parse_withdrawal-IsStored, parse_withdrawal-eq-panic,
}
use theta_rosetta_rpc_adapto.Block.{returns_of, return_transaction}
use theta_rosetta_rpc_adapto.Block.Content.{return_hashes}
use theta_rosetta_rpc_adapto.Block.Once.{count, count-return_hashes_absent, count-holds_hash}

List-cases : (xs : List Stake) → (xs ≡ []) ⊎ ((x : Stake) × (rest : List Stake) × (xs ≡ x ∷ rest))
List-cases [] = inl refl
List-cases (x ∷ rest) = inr (x, rest, refl)

differs : {A : Type 0} {a : A} → ok a ≡ panic → ⊥
differs e = cc e

module _ (θ : Theta) where
  -- The purposes whose stakes are in Theta.
  abbrev pub IsInTheta : ℕ → Type 0
  IsInTheta purpose = (purpose ≡ θ.stake_for_validator) ⊎ (purpose ≡ θ.stake_for_guardian)

  -- The operations that a block shows for a return pay an amount in the currency of the stake.
  abbrev pub Pays : ℕ → ℤ → List Operation → Type 0
  Pays purpose amount ops =
      (IsInTheta purpose → (net "THETA" ops ≡ amount) × (net "TFUEL" ops ≡ pos 0))
      × (¬ IsInTheta purpose → (net "THETA" ops ≡ pos 0) × (net "TFUEL" ops ≡ amount))

  purpose-true :
      (tx : WithdrawStakeTx)
      → IsInTheta tx.purpose
      → (tx.purpose == θ.stake_for_validator || tx.purpose == θ.stake_for_guardian) ≡ true
  purpose-true tx (inl e) = ground arith
  purpose-true tx (inr e) = ground arith

  purpose-false :
      (tx : WithdrawStakeTx)
      → ¬ IsInTheta tx.purpose
      → (tx.purpose == θ.stake_for_validator || tx.purpose == θ.stake_for_guardian) ≡ false
  purpose-false tx n =
      let other : ¬ (tx.purpose ≡ θ.stake_for_validator) = λ e. n (inl e) in
      let another : ¬ (tx.purpose ≡ θ.stake_for_guardian) = λ e. n (inr e) in ground arith

  return_of-Pays :
      (tx : WithdrawStakeTx) (tx_hash : Hash) (stake : Stake) (status : String)
      → Pays tx.purpose
          (or_zero stake.amount)
          (return_transaction θ status (return_of θ tx tx_hash stake)).operations
  unfolding return_transaction
  return_of-Pays tx tx_hash stake status =
      let (theta, tfuel) =
        parse_return_stake_tx-net θ (some status) (return_of θ tx tx_hash stake).tx
          TxType.withdraw_stake_tx in
      let in_theta = λ (b : Bool). or_zero (returned_coins b stake.amount).theta_wei in
      let in_tfuel = λ (b : Bool). or_zero (returned_coins b stake.amount).tfuel_wei in
      (
        λ p. (theta ∙ ap in_theta (purpose-true tx p), tfuel ∙ ap in_tfuel (purpose-true tx p)),
        λ n. (theta ∙ ap in_theta (purpose-false tx n), tfuel ∙ ap in_tfuel (purpose-false tx n)),
      )

  -- The fee alone is in the operations of the withdrawal itself.
  withdrawal_fee-net :
      (status : Option String) (tx : WithdrawStakeTx) (fee : ℤ)
      → (net "THETA"
            (set_status status (fee_operation 0 (θ.address_string tx.source.address) fee) ∷ [])
          ≡ pos 0)
        × (net "TFUEL"
              (set_status status (fee_operation 0 (θ.address_string tx.source.address) fee) ∷ [])
            ≡ neg fee)
  unfolding net
  withdrawal_fee-net none tx fee = rw set_string-big_string (omega int_laws, omega int_laws)
  withdrawal_fee-net (some s) tx fee = rw set_string-big_string (omega int_laws, omega int_laws)

  -- A list of returns that a withdrawal was added to: as it was if it had the withdrawal's hash, and
  -- else with one more return at its end, of that hash and account, which pays the stake's amount.
  abbrev pub IsAdded : WithdrawStakeTx → Hash → Stake → ReturnStakeTxs → ReturnStakeTxs → Type 0
  IsAdded tx tx_hash stake earlier rs =
      (1 ≤ count (θ.hash_hex tx_hash) (return_hashes earlier) → rs ≡ earlier)
      × (count (θ.hash_hex tx_hash) (return_hashes earlier) ≡ 0
          → (r : ReturnStakeTx) × (rs ≡ earlier ++ r ∷ [])
            × (r.hash ≡ θ.hash_hex tx_hash)
            × (r.tx.source.address ≡ tx.source.address)
            × ((status : String)
                → Pays tx.purpose (or_zero stake.amount)
                    (return_transaction θ status r).operations))

  extend_returns-IsAdded :
      (tx : WithdrawStakeTx) (tx_hash : Hash) (stake : Stake) (before : Option ReturnStakeTxs)
      → IsAdded tx tx_hash stake
          (returns_of before)
          (extend_returns (return_of θ tx tx_hash stake) before)
  extend_returns-IsAdded tx tx_hash stake none = (
    λ p. absurd (omega (arith, p)),
    λ p. (return_of θ tx tx_hash stake, refl, refl, refl, return_of-Pays tx tx_hash stake),
  )
  extend_returns-IsAdded tx tx_hash stake (some rs) =
      elim (Bool-cases (holds_hash (θ.hash_hex tx_hash) rs)) [
        | inl a ↦
            rw a (
              λ p. refl,
              λ p. absurd (omega (arith, p, count-holds_hash (θ.hash_hex tx_hash) rs a)),
            )
        | inr a ↦ rw a (
          λ p. absurd (omega (arith, p, count-return_hashes_absent (θ.hash_hex tx_hash) rs a)),
          λ p. (return_of θ tx tx_hash stake, refl, refl, refl, return_of-Pays tx tx_hash stake),
        )
      ]

  module _ (store : Store ReturnStakeTxs) where
    -- A withdrawal with a fee, whose stake is found and whose return can be written, is parsed
    -- without a panic. Its own operations sum to minus the fee in TFuel and to nothing in Theta.
    -- Under the key of the height at which the stake comes back stands, as the store gives it back,
    -- what was there, and behind it one return of the withdrawal's hash and account unless that
    -- hash was there already; the operations that a block shows for that return sum to the stake's
    -- amount, in Theta for a validator's or guardian's stake and in TFuel for any other, and to
    -- nothing in the other currency. Every other key is as it was.
    pub parse_withdrawal-IsAdded :
        (status : Option String) (client : Client) (tx : WithdrawStakeTx) (type : TxType)
        (tx_hash : Hash) (stake : Stake) (fee : ℤ) (height : ℕ) (s : store.State)
        → tx.fee.tfuel_wei ≡ some fee
        → get_stake_for_tx θ client tx height ≡ ok (returned (some stake))
        → (store.put (return_key θ store height) (scheduled θ store tx tx_hash stake height s) s).0
          ≡ true
        → (t : Transaction) × (s' : store.State) × (rs : ReturnStakeTxs) × (parse_withdrawal θ store
              status
              (some client)
              tx
              type
              tx_hash
              height
              s
            ≡ ok (t, s'))
          × (net "THETA" t.operations ≡ pos 0)
          × (net "TFUEL" t.operations ≡ neg fee)
          × (store.get (return_key θ store height) s' ≡ some (store.canon rs))
          × IsAdded tx tx_hash stake (returns_of (store.get (return_key θ store height) s)) rs
          × ((j : Bytes) → return_key θ store height ≢ j → store.get j s' ≡ store.get j s)
    parse_withdrawal-IsAdded status client tx type tx_hash stake fee height s f g w =
        let (s', p, stored) =
          parse_withdrawal-IsStored θ store status client tx type tx_hash stake fee height s f g
            w in
        let (theta, tfuel) = withdrawal_fee-net status tx fee in
        (
          _,
          s',
          scheduled θ store tx tx_hash stake height s,
          p,
          theta,
          tfuel,
          stored.0,
          extend_returns-IsAdded tx tx_hash stake (store.get (return_key θ store height) s),
          stored.1,
        )

    -- A withdrawal with a fee from a validator or a guardian whose pool the node answers with,
    -- where the store can be written, panics exactly when the pool has no stake from the
    -- transaction's source under its holder.
    pub parse_withdrawal-eq-panic_iff :
        (status : Option String) (client : Client) (tx : WithdrawStakeTx) (type : TxType)
        (tx_hash : Hash) (fee : ℤ) (height : ℕ) (pair : PoolPair) (pairs : List PoolPair)
        (holders : List StakeHolder) (s : store.State)
        → tx.fee.tfuel_wei ≡ some fee
        → pair.pool ≡ some holders
        → ((tx.purpose ≡ θ.stake_for_validator)
            × (client.vcp_by_height height ≡ Reply.result (pair ∷ pairs)))
          ⊎ ((tx.purpose ≡ θ.stake_for_guardian)
              × ((θ.stake_for_guardian == θ.stake_for_validator) ≡ false)
              × (client.gcp_by_height height ≡ Reply.result (pair ∷ pairs)))
        → ((rs : ReturnStakeTxs) → (store.put (return_key θ store height) rs s).0 ≡ true)
        → (parse_withdrawal θ store status (some client) tx type tx_hash height s ≡ panic)
          ↔ (stakes_from tx.source.address (stakes_under tx.holder.address holders) ≡ [])
    parse_withdrawal-eq-panic_iff status client tx type tx_hash fee height pair pairs holders s f p
          a w =
        let searched = get_stake_for_tx-eq-first θ client tx height pair pairs holders p a in
        elim (List-cases (stakes_from tx.source.address (stakes_under tx.holder.address holders))) [
          | inl e ↦ (
            λ h. e,
            λ h.
                parse_withdrawal-eq-panic θ store status (some client) tx type tx_hash height s
                  (inl (searched ∙ ap (λ stakes. ok (returned (first stakes))) e)),
          )
          | inr (stake, stakes, e) ↦
              let (s', q, stored) =
                parse_withdrawal-IsStored θ store status client tx type tx_hash stake fee height s f
                  (searched ∙ ap (λ stakes. ok (returned (first stakes))) e) (w _) in
              (λ h. absurd (differs (sym q ∙ h)), λ h. absurd (cc (sym e ∙ h)))
        ]
