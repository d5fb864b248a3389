-- ===== src/StakeService/Lookup.antt =====
-- Which stake `GetStakeForTx` finds.
use theta_rosetta_rpc_adapto.Prelude.{
  ℕ, ◌≡◌, refl, true, false, Option, none, some, List, [], ◌∷◌, ◌++◌, ◌==◌, if◌then◌else◌, arith,
  Bool-cases, inl, inr, ◌⊎◌,
}
use theta_rosetta_rpc_adapto.Go.{ok}
use theta_rosetta_rpc_adapto.Wire.{Address, WithdrawStakeTx, Theta}
use theta_rosetta_rpc_adapto.Rpc.{Reply}
use theta_rosetta_rpc_adapto.StakeService.{
  Stake, StakeHolder, PoolPair, Client, returned, find_stake, or_else, find_holder_stake,
  find_in_pairs, get_stake_for_tx,
}

-- All stakes from the source, in order.
abbrev pub stakes_from : Address → List Stake → List Stake
stakes_from source [] = []
stakes_from source (stake ∷ stakes) =
    if stake.source == source then stake ∷ stakes_from source stakes else stakes_from source stakes

-- All stakes of the holders with the address, in order.
abbrev pub stakes_under : Address → List StakeHolder → List Stake
stakes_under holder [] = []
stakes_under holder (h ∷ hs) =
    if h.holder == holder then h.stakes ++ stakes_under holder hs else stakes_under holder hs

abbrev pub first : List Stake → Option Stake
first [] = none
first (stake ∷ stakes) = some stake

find_stake-eq-first :
    (source : Address) (stakes : List Stake)
    → find_stake source stakes ≡ first (stakes_from source stakes)
unfolding find_stake
find_stake-eq-first source [] = refl
find_stake-eq-first source (stake ∷ stakes) = elim (Bool-cases (stake.source == source)) [
  | inl e ↦ rw e
  | inr n ↦ rw n (find_stake-eq-first source stakes)
]

first-append :
    (source : Address) (xs ys : List Stake)
    → first (stakes_from source (xs ++ ys))
      ≡ or_else (first (stakes_from source xs)) (first (stakes_from source ys))
first-append source [] ys = refl
first-append source (x ∷ xs) ys = elim (Bool-cases (x.source == source)) [
  | inl e ↦ rw e
  | inr n ↦ rw n (first-append source xs ys)
]

find_holder_stake-eq-first :
    (holder source : Address) (hs : List StakeHolder)
    → find_holder_stake holder source hs ≡ first (stakes_from source (stakes_under holder hs))
unfolding find_holder_stake
find_holder_stake-eq-first holder source [] = refl
find_holder_stake-eq-first holder source (h ∷ hs) = elim (Bool-cases (h.holder == holder)) [
  | inl e ↦ rw (
    e,
    first-append source h.stakes (stakes_under holder hs),
    find_stake-eq-first source h.stakes,
    find_holder_stake-eq-first holder source hs,
  )
  | inr n ↦ rw n (find_holder_stake-eq-first holder source hs)
]

module _ (θ : Theta) (client : Client) where
  -- For a withdrawal from a validator or a guardian, the pool's answer is searched for the first
  -- stake from the transaction's source under its holder, withdrawn or not; where there is none,
  -- nil is returned with no error. The two purposes are different constants.
  pub get_stake_for_tx-eq-first :
      (tx : WithdrawStakeTx) (height : ℕ) (pair : PoolPair) (pairs : List PoolPair)
      (holders : List StakeHolder)
      → pair.pool ≡ some holders
      → ((tx.purpose ≡ θ.stake_for_validator)
          × (client.vcp_by_height height ≡ Reply.result (pair ∷ pairs)))
        ⊎ ((tx.purpose ≡ θ.stake_for_guardian)
            × ((θ.stake_for_guardian == θ.stake_for_validator) ≡ false)
            × (client.gcp_by_height height ≡ Reply.result (pair ∷ pairs)))
      → get_stake_for_tx θ client tx height
        ≡ ok (
            returned
              (first (stakes_from tx.source.address (stakes_under tx.holder.address holders))))
  unfolding get_stake_for_tx find_in_pairs
  get_stake_for_tx-eq-first tx height pair pairs holders p (inl (e, r)) =
      let same : (tx.purpose == θ.stake_for_validator) ≡ true = ground arith in
      rw (same, r, p, find_holder_stake-eq-first tx.holder.address tx.source.address holders)
  get_stake_for_tx-eq-first tx height pair pairs holders p (inr (e, n, r)) =
      let other : (tx.purpose == θ.stake_for_validator) ≡ false = rw e n in
      let same : (tx.purpose == θ.stake_for_guardian) ≡ true = ground arith in
      rw (other, same, r, p, find_holder_stake-eq-first tx.holder.address tx.source.address holders)
