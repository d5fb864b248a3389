-- ===== src/StakeService/Snapshot.antt =====
-- `GenStakesForSnapshot` of common/stake_service.go.
use Prim.Native.String
use theta_rosetta_rpc_adapto.Prelude.{
  ℕ, zero, suc, ◌+◌, String, Option, none, some, List, [], ◌∷◌, ◌++◌, ◌==◌, if◌then◌else◌, map,
}
use theta_rosetta_rpc_adapto.Prelude.Int.{pos}
use theta_rosetta_rpc_adapto.Digits.{to_base}
use theta_rosetta_rpc_adapto.Go.{Go, ok, ◌>>=◌, deref}
use theta_rosetta_rpc_adapto.Wire.{Hash, Coins, WithdrawStakeTx, Theta}
use theta_rosetta_rpc_adapto.Rpc.{get_status}
use theta_rosetta_rpc_adapto.Store.Interface.{Store}
use theta_rosetta_rpc_adapto.StakeService.{
  Stake, StakeHolder, PoolPair, EenpPair, Client, ReturnStakeTx, ReturnStakeTxs, Outcome, returned,
  failed, checked, height_bytes,
}

digit_text : ℕ → String
digit_text d =
    if d == 0
    then "0"
    else if d == 1
    then "1"
    else if d == 2
    then "2"
    else if d == 3
    then "3"
    else if d == 4
    then "4"
    else if d == 5
    then "5"
    else if d == 6
    then "6"
    else if d == 7
    then "7"
    else if d == 8
    then "8"
    else "9"

concat : List String → String
concat [] = ""
concat (s ∷ ss) = String.◌++◌ s (concat ss)

-- `%d` of an index.
unfoldable pub index_text : ℕ → String
unfolding digit_text concat to_base
index_text zero = "0"
index_text (suc n) = concat (map digit_text (to_base 10 (suc n)))

-- `fmt.Sprintf("<pool>_%s_%s_%d", StakeReturnPrefix, blockHash, i)`
unfoldable pub return_name : String → String → ℕ → String
unfolding index_text concat
return_name pool block_hash i =
    concat (pool ∷ "_" ∷ "stake_return" ∷ "_" ∷ block_hash ∷ "_" ∷ index_text i ∷ [])

-- `returnStakeTxsMap`, its keys in the order of their first writes.
abbrev pub HeightMap : Type 0
HeightMap = List (ℕ × ReturnStakeTxs)

unfoldable pub lookup : ℕ → HeightMap → Option ReturnStakeTxs
lookup h [] = none
lookup h ((k, txs) ∷ m) = if k == h then some txs else lookup h m

unfoldable pub insert : ℕ → ReturnStakeTxs → HeightMap → HeightMap
insert h txs [] = (h, txs) ∷ []
insert h txs ((k, old) ∷ m) = if k == h then (h, txs) ∷ m else (k, old) ∷ insert h txs m

abbrev pub write_longer : ℕ → ReturnStakeTx → HeightMap → Option ReturnStakeTxs → HeightMap
write_longer h tx m (some txs) = insert h (txs ++ tx ∷ []) m
write_longer h tx m none = insert h (tx ∷ []) m

-- The end of the validator loop: the longer slice is written back to the map.
unfoldable pub add_return : ℕ → ReturnStakeTx → HeightMap → HeightMap
add_return h tx m = write_longer h tx m (lookup h m)

abbrev pub write_new : ℕ → ReturnStakeTx → HeightMap → Option ReturnStakeTxs → HeightMap
write_new h tx m (some txs) = m
write_new h tx m none = insert h (tx ∷ []) m

-- The end of the guardian and elite edge node loops: `append` to the copy that `ok` brought, which is
-- not written back to the map.
unfoldable pub add_first_return : ℕ → ReturnStakeTx → HeightMap → HeightMap
add_first_return h tx m = write_new h tx m (lookup h m)

abbrev pub theta_coins : Stake → Coins
theta_coins stake = record { theta_wei = stake.amount; tfuel_wei = some (pos 0) }

abbrev pub tfuel_coins : Stake → Coins
tfuel_coins stake = record { theta_wei = some (pos 0); tfuel_wei = stake.amount }

-- A struct with its other fields zero.
abbrev pub withdraw_tx : (Stake → Coins) → Stake → WithdrawStakeTx
withdraw_tx coins stake = record {
  fee = record { theta_wei = none; tfuel_wei = none };
  source = record { address = stake.source; coins = coins stake; sequence = 0; signature = none };
  holder = record { address = stake.holder; coins = record { theta_wei = none; tfuel_wei = none } };
  purpose = 0;
}

module _ (θ : Theta) where
  abbrev pub return_tx : String → Hash → (Stake → Coins) → ℕ → Stake → ReturnStakeTx
  return_tx pool block_hash coins i stake = record {
    hash = θ.hash_hex (θ.keccak256 (return_name pool (θ.hash_hex block_hash) i));
    tx = withdraw_tx coins stake;
  }

  -- The three loops share their shape: `add` is how a return enters the map.
  module _ (add : ℕ → ReturnStakeTx → HeightMap → HeightMap) (pool : String) (coins : Stake → Coins)
      (block_hash : Hash) where
    unfoldable pub add_stakes : ℕ → List Stake → HeightMap → HeightMap
    add_stakes i [] m = m
    add_stakes i (stake ∷ stakes) m = add_stakes (suc i) stakes (
        if stake.withdrawn
        then add stake.return_height (return_tx pool block_hash coins i stake) m
        else m)

    unfoldable pub add_holders : List StakeHolder → HeightMap → HeightMap
    unfolding add_stakes
    add_holders [] m = m
    add_holders (h ∷ hs) m = add_holders hs (add_stakes 0 h.stakes m)

  unfoldable pub add_vcp : List PoolPair → HeightMap → Go HeightMap
  unfolding add_holders add_return
  add_vcp [] m = ok m
  add_vcp (pair ∷ pairs) m = do
    candidates ← deref pair.pool
    ok (add_holders add_return "vcp" theta_coins pair.block_hash candidates m)

  unfoldable pub add_gcp : List PoolPair → HeightMap → Go HeightMap
  unfolding add_holders add_first_return
  add_gcp [] m = ok m
  add_gcp (pair ∷ pairs) m = do
    guardians ← deref pair.pool
    ok (add_holders add_first_return "gcp" theta_coins pair.block_hash guardians m)

  unfoldable pub add_eenp : List EenpPair → HeightMap → HeightMap
  unfolding add_holders add_first_return
  add_eenp [] m = m
  add_eenp (pair ∷ pairs) m =
      add_holders add_first_return "eenp" tfuel_coins pair.block_hash pair.eens m

  module _ (store : Store ReturnStakeTxs) where
    -- The last loop, over the map in some order. An error of `Put` is dropped.
    unfoldable pub store_returns : HeightMap → store.State → store.State
    store_returns [] s = s
    store_returns ((h, txs) ∷ m) s = store_returns m (store.put (height_bytes (h + 1)) txs s).1

    -- `GenStakesForSnapshot`. Where the status cannot be had it returns no error.
    unfoldable pub gen_stakes_for_snapshot :
        Client → store.State → Go (Outcome (Unit {0}) × store.State)
    unfolding store_returns add_vcp add_gcp add_eenp get_status
    gen_stakes_for_snapshot client s = do
      status ← get_status client.status
      elim status [
        | none ↦ ok (returned tt, s)
        | some st ↦ do
          let height = st.snapshot_block_height
          outcome ← checked (client.vcp_by_height height) (λ vcp. do
            m1 ← add_vcp vcp []
            checked (client.gcp_by_height height) (λ gcp. do
              m2 ← add_gcp gcp m1
              checked (client.eenp_by_height height) (λ eenp. ok (returned (add_eenp eenp m2)))))
          elim outcome [
            | failed ↦ ok (failed, s)
            | returned m ↦ ok (returned tt, store_returns m s)
          ]
      ]
