-- ===== src/StakeService.antt =====
-- common/stake_service.go: finding the stake that a withdrawal returns (`GetStakeForTx`), and filling
-- the store from a snapshot (`GenStakesForSnapshot`).
pub mod Lookup
pub mod Snapshot
pub mod Grouping
pub mod Filled
use theta_rosetta_rpc_adapto.Prelude.{
  ℕ, suc, ◌+◌, ◌%◌, ◌^◌, String, Bool, true, false, Option, none, some, List, [], ◌∷◌, ◌++◌, ◌==◌,
  if◌then◌else◌,
}
use theta_rosetta_rpc_adapto.Prelude.Int.{ℤ, pos}
use theta_rosetta_rpc_adapto.Digits.{Bytes, big_bytes}
use theta_rosetta_rpc_adapto.Go.{Go, ok, panic, ◌>>=◌, deref}
use theta_rosetta_rpc_adapto.Wire.{Address, Hash, Coins, WithdrawStakeTx, Theta}
use theta_rosetta_rpc_adapto.Rpc.{Reply, Status}

pub record Stake : Type 0 where
  pub source : Address
  pub holder : Address
  pub amount : Option ℤ
  pub withdrawn : Bool
  pub return_height : ℕ

-- A candidate of the validator pool, a guardian or an elite edge node, with its stakes.
pub record StakeHolder : Type 0 where
  pub holder : Address
  pub stakes : List Stake

-- A `BlockHashVcpPair` or `BlockHashGcpPair`; the pool is behind a pointer.
pub record PoolPair : Type 0 where
  pub block_hash : Hash
  pub pool : Option (List StakeHolder)

-- A `BlockHashEenpPair`; the nodes are a slice.
pub record EenpPair : Type 0 where
  pub block_hash : Hash
  pub eens : List StakeHolder

-- The node's answers to the calls of the service, in one run. `unknown_method` answers the call of
-- "theta." that a purpose with no case makes.
pub record Client : Type 0 where
  pub status : Reply Status
  pub vcp_by_height : ℕ → Reply (List PoolPair)
  pub gcp_by_height : ℕ → Reply (List PoolPair)
  pub eenp_by_height : ℕ → Reply (List EenpPair)
  pub eenp_stake_by_height : ℕ → Address → Address → Bool → Reply Stake
  pub unknown_method : Reply (Unit {0})

pub record ReturnStakeTx : Type 0 where
  pub hash : String
  pub tx : WithdrawStakeTx

abbrev pub ReturnStakeTxs : Type 0
ReturnStakeTxs = List ReturnStakeTx

abbrev pub u64_mod : ℕ
u64_mod = 2 ^ 64

-- `new(big.Int).SetUint64(n).Bytes()` of a sum in `uint64`.
unfoldable pub height_bytes : ℕ → Bytes
unfolding big_bytes
height_bytes n = big_bytes (n % u64_mod)

-- An error, or what a call returns with no error.
pub data Outcome {ℓ} (A : Type ℓ) : Type ℓ where
  returned : A → Outcome A
  failed : Outcome A

-- The checks after each call: an error of the client, a nil response that is dereferenced, an error
-- of the node, a result that cannot be marshalled.
abbrev pub checked {ℓ κ} :
    {A : Type ℓ} {B : Type κ} → Reply A → (A → Go (Outcome B)) → Go (Outcome B)
checked Reply.call_failed parse = ok failed
checked Reply.no_response parse = panic
checked (Reply.error_reply code) parse = ok failed
checked Reply.bad_result parse = ok failed
checked (Reply.result a) parse = parse a

-- The inner loop: the first stake from the source.
unfoldable pub find_stake : Address → List Stake → Option Stake
find_stake source [] = none
find_stake source (stake ∷ stakes) =
    let rest = find_stake source stakes in if stake.source == source then some stake else rest

abbrev pub or_else : Option Stake → Option Stake → Option Stake
or_else none rest = rest
or_else (some stake) rest = some stake

-- The outer loop: the first such stake under the holder.
unfoldable pub find_holder_stake : Address → Address → List StakeHolder → Option Stake
unfolding find_stake
find_holder_stake holder source [] = none
find_holder_stake holder source (h ∷ hs) =
    let rest = find_holder_stake holder source hs in
    if h.holder == holder then or_else (find_stake source h.stakes) rest else rest

-- The first pair of the result, its pool dereferenced; an empty result finds nothing.
unfoldable pub find_in_pairs : Address → Address → List PoolPair → Go (Option Stake)
unfolding find_holder_stake
find_in_pairs holder source [] = ok none
find_in_pairs holder source (pair ∷ pairs) = do
  holders ← deref pair.pool
  ok (find_holder_stake holder source holders)

abbrev pub return_ok {ℓ} : {A : Type ℓ} → Go A → Go (Outcome A)
return_ok (ok a) = ok (returned a)
return_ok panic = panic

module _ (θ : Theta) (client : Client) where
  -- `GetStakeForTx`: the stake's pointer, nil where there is no such stake, or an error.
  unfoldable pub get_stake_for_tx : WithdrawStakeTx → ℕ → Go (Outcome (Option Stake))
  unfolding find_in_pairs
  get_stake_for_tx tx height =
      if tx.purpose == θ.stake_for_validator
      then checked (client.vcp_by_height height)
          (λ pairs. return_ok (find_in_pairs tx.holder.address tx.source.address pairs))
      else if tx.purpose == θ.stake_for_guardian
      then checked (client.gcp_by_height height)
          (λ pairs. return_ok (find_in_pairs tx.holder.address tx.source.address pairs))
      else if tx.purpose == θ.stake_for_elite_edge_node
      then checked (client.eenp_stake_by_height height tx.source.address tx.holder.address true)
          (λ stake. ok (returned (some stake)))
      else checked client.unknown_method (λ u. ok (returned none))
