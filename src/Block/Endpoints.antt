-- ===== src/Block/Endpoints.antt =====
-- `ValidateNetworkIdentifier` of common/utils.go, and the endpoints `Block` and `BlockTransaction` of
-- services/block.go.
use theta_rosetta_rpc_adapto.Prelude.{
  ℕ, suc, ◌-◌, ◌%◌, String, Bool, Option, none, some, ◌=ˢ◌, if◌then◌else◌, List,
}
use theta_rosetta_rpc_adapto.Prelude.Int.{ℤ, pos, negsuc}
use theta_rosetta_rpc_adapto.Digits.{Bytes}
use theta_rosetta_rpc_adapto.Go.{Go, ok, ◌>>=◌}
use theta_rosetta_rpc_adapto.Names.{TxType, chain_name}
use theta_rosetta_rpc_adapto.Wire.{Hash, Transaction, BalanceChange, Theta}
use theta_rosetta_rpc_adapto.Errors.{
  ApiError, err_invalid_blockchain, err_invalid_subnetwork, err_invalid_network, err_missing_nid,
  err_unavailable_offline, err_unable_to_get_blk, err_unable_to_get_blk_tx,
}
use theta_rosetta_rpc_adapto.Rpc.{Reply, handle_theta_rpc_response}
use theta_rosetta_rpc_adapto.Store.Interface.{Store}
use theta_rosetta_rpc_adapto.StakeService.{Client, ReturnStakeTxs, u64_mod}
use theta_rosetta_rpc_adapto.Transaction.{Decoder, parse_tx}
use theta_rosetta_rpc_adapto.Block.{Block, BlockResult, or_zero_gas, parse_block}

-- The mode and the chain id that the process runs with, and `strings.EqualFold`.
pub record Config : Type 0 where
  pub mode : String
  pub chain_id : String
  pub equal_fold : String → String → Bool

pub record NetworkIdentifier : Type 0 where
  pub blockchain : String
  pub network : String
  pub sub_network : Option String

-- A response or an error.
pub data Response (A : Type 0) : Type 0 where
  response : A → Response A
  refused : ApiError → Response A

abbrev pub check_sub_network : Option String → Bool → Option ApiError
check_sub_network (some sub) same = some err_invalid_subnetwork
check_sub_network none same = if same then none else some err_invalid_network

-- `none` where the identifier is valid.
unfoldable pub validate_network_identifier : Config → Option NetworkIdentifier → Option ApiError
validate_network_identifier config none = some err_missing_nid
validate_network_identifier config (some ni) =
    if config.equal_fold ni.blockchain chain_name
    then check_sub_network ni.sub_network (config.equal_fold ni.network config.chain_id)
    else some err_invalid_blockchain

-- The two guards that each online endpoint starts with.
unfoldable pub guard_online : Config → Option NetworkIdentifier → Option ApiError
unfolding validate_network_identifier
guard_online config ni =
    if config.equal_fold "online" config.mode
    then validate_network_identifier config ni
    else some err_unavailable_offline

-- An `int64` as a `uint64`.
abbrev pub unsigned_64 : ℤ → ℕ
unsigned_64 (pos n) = n % u64_mod
unsigned_64 (negsuc n) = (u64_mod - suc n % u64_mod) % u64_mod

-- A `GetTransactionResult`, with the raw "transaction", `none` where that key is absent.
pub record TransactionResult : Type 0 where
  pub status : String
  pub tx_hash : Hash
  pub type : TxType
  pub gas_used : Option ℕ
  pub balance_changes : Option (List BalanceChange)
  pub raw : Option Bytes

-- The node's answers to the calls of the two endpoints.
pub record BlockNode : Type 0 where
  pub block_by_height : ℕ → Reply (Option BlockResult)
  pub block : String → Reply (Option BlockResult)
  pub transaction : String → Reply TransactionResult

-- The call that a block request makes: by index, by hash, or none at all.
unfoldable pub block_reply : BlockNode → Option ℤ → Option String → Reply (Option BlockResult)
block_reply node (some index) hash = node.block_by_height (unsigned_64 index)
block_reply node none (some hash) = node.block hash
block_reply node none none = Reply.no_response

module _ (θ : Theta) (store : Store ReturnStakeTxs) (decode : Decoder) where
  abbrev pub answer_block :
      store.State → Option (Block × store.State) → Response Block × store.State
  answer_block s none = (Response.refused err_unable_to_get_blk, s)
  answer_block s (some (b, s')) = (Response.response b, s')

  abbrev pub answer_block_after :
      Config
      → BlockNode
      → Client
      → Option ℤ
      → Option String
      → store.State
      → Option ApiError
      → Go (Response Block × store.State)
  answer_block_after config node client index hash s (some e) = ok (Response.refused e, s)
  answer_block_after config node client index hash s none = do
    res ←
        handle_theta_rpc_response (block_reply node index hash)
          (λ b. parse_block θ store decode client b s)
    ok (answer_block s res)

  -- `Block`
  unfoldable pub block_endpoint :
      Config
      → BlockNode
      → Client
      → Option NetworkIdentifier
      → Option ℤ
      → Option String
      → store.State
      → Go (Response Block × store.State)
  unfolding block_reply guard_online
  block_endpoint config node client ni index hash s =
      answer_block_after config node client index hash s (guard_online config ni)

  -- The closure of `BlockTransaction`: neither the database nor the service is passed on, and the
  -- height is 0.
  abbrev pub parse_found : TransactionResult → Option Bytes → store.State → Go (Option Transaction)
  parse_found t none s = ok none
  parse_found t (some raw) s = if "not_found" =ˢ t.status then ok none else do
    parsed ←
        parse_tx θ store decode t.type raw t.tx_hash (some t.status) (or_zero_gas t.gas_used)
          t.balance_changes none 0 s
    ok (some parsed.0)

  abbrev pub answer_transaction : Option Transaction → Response Transaction
  answer_transaction none = Response.refused err_unable_to_get_blk_tx
  answer_transaction (some t) = Response.response t

  abbrev pub answer_transaction_after :
      BlockNode → String → store.State → Option ApiError → Go (Response Transaction)
  answer_transaction_after node hash s (some e) = ok (Response.refused e)
  answer_transaction_after node hash s none = do
    res ← handle_theta_rpc_response (node.transaction hash) (λ t. parse_found t t.raw s)
    ok (answer_transaction res)

  -- `BlockTransaction`
  unfoldable pub block_transaction_endpoint :
      Config
      → BlockNode
      → Option NetworkIdentifier
      → String
      → store.State
      → Go (Response Transaction)
  unfolding guard_online
  block_transaction_endpoint config node ni hash s =
      answer_transaction_after node hash s (guard_online config ni)
