-- ===== src/Block.antt =====
-- The endpoints of services/block.go: a block with the transactions that it holds and the stakes that
-- come back at its height, and a transaction alone.
pub mod Kept
pub mod Left
pub mod Once
pub mod Served
pub mod Withdrawn
pub mod Reached
pub mod Endpoints
pub mod Content
pub mod Return
pub mod Guards
use theta_rosetta_rpc_adapto.Prelude.{
  ℕ, zero, suc, ◌+◌, ◌-◌, ◌%◌, ◌^◌, String, Bool, true, false, Option, none, some, List, [], ◌∷◌,
  ◌++◌, map, ◌==◌, ◌=ˢ◌, ltb, if◌then◌else◌, ◌≡◌,
}
use theta_rosetta_rpc_adapto.Prelude.Int.{ℤ, pos, negsuc, neg, sub_ℕ}
use theta_rosetta_rpc_adapto.Digits.{Bytes}
use theta_rosetta_rpc_adapto.Go.{Go, ok, panic, ◌>>=◌, deref, index}
use theta_rosetta_rpc_adapto.Names.{TxType, chain_name, block_status_string}
use theta_rosetta_rpc_adapto.Wire.{
  Address, Hash, Value, Metadata, Transaction, BalanceChange, Theta,
}
use theta_rosetta_rpc_adapto.Errors.{
  ApiError, err_invalid_blockchain, err_invalid_subnetwork, err_invalid_network, err_missing_nid,
  err_unavailable_offline, err_unable_to_get_blk, err_unable_to_get_blk_tx,
}
use theta_rosetta_rpc_adapto.Rpc.{Reply, handle_theta_rpc_response}
use theta_rosetta_rpc_adapto.Store.Interface.{Store}
use theta_rosetta_rpc_adapto.StakeService.{
  Client, ReturnStakeTx, ReturnStakeTxs, u64_mod, height_bytes,
}
use theta_rosetta_rpc_adapto.Parse.Contracts.{scale}
use theta_rosetta_rpc_adapto.Parse.Stakes.{parse_return_stake_tx}
use theta_rosetta_rpc_adapto.Transaction.{Decoder, Services, parse_tx}

-- An entry of the node's "transactions": the struct's fields and, of the same entry, the raw bytes.
pub record Tx : Type 0 where
  pub type : TxType
  pub hash : Hash
  pub gas_used : Option ℕ
  pub balance_changes : Option (List BalanceChange)

-- A `GetBlockResultInner`, with the "raw" entries of "transactions", `none` where that key is absent.
pub record BlockResult : Type 0 where
  pub height : ℕ
  pub hash : Hash
  pub parent : Hash
  pub timestamp : Option ℤ
  pub status : ℕ
  pub tx_hash : Hash
  pub state_hash : Hash
  pub proposer : Address
  pub txs : List Tx
  pub raws : Option (List Bytes)

pub record Block : Type 0 where
  pub index : ℤ
  pub hash : String
  pub parent_index : ℤ
  pub parent_hash : String
  pub timestamp : ℤ
  pub metadata : Metadata
  pub transactions : List Transaction

-- The 64 bits of a number as an `int64`.
unfoldable pub signed_64 : ℕ → ℤ
signed_64 n = let bits = n % u64_mod in if ltb bits (2 ^ 63) then pos bits else sub_ℕ bits u64_mod

-- `Int64` of a `big.Int`, as Go computes it, and the wrap of a product.
unfoldable pub int64_of : ℤ → ℤ
unfolding signed_64
int64_of (pos n) = signed_64 n
int64_of (negsuc n) = signed_64 (u64_mod - suc n % u64_mod)

abbrev pub or_zero_gas : Option ℕ → ℕ
or_zero_gas none = 0
or_zero_gas (some g) = g

-- `Height - 1`, but 0 at the genesis block.
abbrev pub parent_height : ℕ → ℕ
parent_height zero = zero
parent_height (suc n) = n

abbrev pub returns_of : Option ReturnStakeTxs → ReturnStakeTxs
returns_of none = []
returns_of (some rs) = rs

module _ (θ : Theta) where
  -- The transactions of the stakes that come back: each with the hash of its withdrawal.
  unfoldable pub return_transaction : String → ReturnStakeTx → Transaction
  return_transaction status r =
      let (meta, ops) = parse_return_stake_tx θ (some status) r.tx TxType.withdraw_stake_tx in
      record { hash = r.hash; metadata = meta; operations = ops }

  unfoldable pub block_metadata : BlockResult → String → Metadata
  block_metadata b status =
      ("status", Value.text status)
      ∷ ("transactions_hash", Value.hash b.tx_hash)
      ∷ ("state_hash", Value.text (θ.hash_hex b.state_hash))
      ∷ ("proposer", Value.text (θ.address_hex b.proposer))
      ∷ []

  unfoldable pub block_of : BlockResult → ℤ → String → List Transaction → Block
  unfolding block_metadata int64_of
  block_of b time status transactions = record {
    index = signed_64 b.height;
    hash = θ.hash_hex b.hash;
    parent_index = signed_64 (parent_height b.height);
    parent_hash = θ.hash_hex b.parent;
    timestamp = int64_of (scale 1000 (int64_of time));
    metadata = block_metadata b status;
    transactions = transactions;
  }

  module _ (store : Store ReturnStakeTxs) (decode : Decoder) where
    -- The loop over the raw entries: each parse may write to the store that the next one sees, and
    -- an entry is looked up by its index. A panic comes with no store here; the store that it leaves
    -- is `txs_left` of Block/Left.
    unfoldable pub parse_txs :
        Client
        → String
        → ℕ
        → List Tx
        → ℕ
        → List Bytes
        → store.State
        → Go (List Transaction × store.State)
    parse_txs client status height txs i [] s = ok ([], s)
    parse_txs client status height txs i (raw ∷ raws) s = do
      tx ← index txs i
      parsed ←
          parse_tx θ store decode tx.type raw tx.hash (some status) (or_zero_gas tx.gas_used)
            tx.balance_changes (some client) height s
      rest ← parse_txs client status height txs (suc i) raws parsed.1
      ok (parsed.0 ∷ rest.0, rest.1)

    unfoldable pub entry_transactions :
        Client
        → String
        → BlockResult
        → Option (List Bytes)
        → store.State
        → Go (List Transaction × store.State)
    unfolding parse_txs
    entry_transactions client status b none s = ok ([], s)
    entry_transactions client status b (some raws) s =
        parse_txs client status b.height b.txs 0 raws s

    -- The closure of `Block`: the block's own transactions, then the returns of its height; `none`
    -- where the node has no such block.
    unfoldable pub parse_block :
        Client → Option BlockResult → store.State → Go (Option (Block × store.State))
    unfolding entry_transactions block_of return_transaction
    parse_block client none s = ok none
    parse_block client (some b) s = do
      time ← deref b.timestamp
      status ← block_status_string b.status
      entries ← entry_transactions client status b b.raws s
      let returns = returns_of (store.get (height_bytes b.height) entries.1)
      ok (
          some (
            block_of b time status (entries.0 ++ map (return_transaction status) returns),
            entries.1,
          ))
