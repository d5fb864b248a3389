-- ===== src/Mempool.antt =====
-- The endpoints of services/mempool.go.
use theta_rosetta_rpc_adapto.Prelude.{
  ℕ, ◌≡◌, refl, String, true, Option, none, some, List, not, ◌=ˢ◌, if◌then◌else◌, Bool-cases, inl,
  inr,
}
use theta_rosetta_rpc_adapto.Digits.{Bytes}
use theta_rosetta_rpc_adapto.Go.{Go, ok, ◌>>=◌}
use theta_rosetta_rpc_adapto.Wire.{Transaction, Theta}
use theta_rosetta_rpc_adapto.Errors.{ApiError, err_unable_to_get_mem_pool, err_unable_to_get_blk_tx}
use theta_rosetta_rpc_adapto.Rpc.{Reply, handle_theta_rpc_response}
use theta_rosetta_rpc_adapto.Store.Interface.{Store}
use theta_rosetta_rpc_adapto.StakeService.{ReturnStakeTxs}
use theta_rosetta_rpc_adapto.Transaction.{Decoder, parse_tx}
use theta_rosetta_rpc_adapto.Block.{or_zero_gas}
use theta_rosetta_rpc_adapto.Block.Endpoints.{
  Config, NetworkIdentifier, Response, response, refused, BlockNode, validate_network_identifier,
  guard_online, TransactionResult, parse_found, answer_transaction, answer_transaction_after,
  block_transaction_endpoint,
}

abbrev pub answer_mempool : Option (List String) → Response (List String)
answer_mempool none = refused err_unable_to_get_mem_pool
answer_mempool (some hashes) = response hashes

abbrev pub answer_mempool_after :
    Reply (List String) → Option ApiError → Go (Response (List String))
answer_mempool_after reply (some e) = ok (refused e)
answer_mempool_after reply none = do
  res ← handle_theta_rpc_response reply (λ hashes. ok (some hashes))
  ok (answer_mempool res)

-- `Mempool`: the hashes of the pending transactions, as the node answers them.
unfoldable pub mempool_endpoint :
    Config → Reply (List String) → Option NetworkIdentifier → Go (Response (List String))
unfolding guard_online
mempool_endpoint config reply ni = answer_mempool_after reply (guard_online config ni)

abbrev receipt_gas : Option ℕ → ℕ
receipt_gas none = 0
receipt_gas (some gas_used) = gas_used

receipt_gas-eq-or_zero_gas : (receipt : Option ℕ) → receipt_gas receipt ≡ or_zero_gas receipt
receipt_gas-eq-or_zero_gas none = refl
receipt_gas-eq-or_zero_gas (some gas_used) = refl

abbrev answer_pending : Option Transaction → Response Transaction
answer_pending none = refused err_unable_to_get_blk_tx
answer_pending (some tx) = response tx

module _ (θ : Theta) (store : Store ReturnStakeTxs) (decode : Decoder) where
  -- What is done with a raw transaction that the node knows. Neither the database nor the service is
  -- passed on, and the height is 0.
  abbrev parse_known : TransactionResult → Bytes → store.State → Go (Option Transaction)
  parse_known t raw s = do
    (tx, s') ←
        parse_tx θ store decode t.type raw t.tx_hash (some t.status) (receipt_gas t.gas_used)
          t.balance_changes none 0 s
    ok (some tx)

  -- The closure of `MempoolTransaction`; `none` is its error.
  unfoldable pub parse_pending :
      TransactionResult → Option Bytes → store.State → Go (Option Transaction)
  parse_pending t (some raw) s =
      if not ("not_found" =ˢ t.status) then parse_known t raw s else ok none
  parse_pending t none s = ok none

  abbrev answer_pending_after :
      BlockNode → String → store.State → Option ApiError → Go (Response Transaction)
  answer_pending_after node hash s (some e) = ok (refused e)
  answer_pending_after node hash s none = do
    res ← handle_theta_rpc_response (node.transaction hash) (λ t. parse_pending t t.raw s)
    ok (answer_pending res)

  -- `MempoolTransaction`: the mode is not looked at. Every error of the call is answered as one of the
  -- block's transaction.
  unfoldable pub mempool_transaction_endpoint :
      Config
      → BlockNode
      → Option NetworkIdentifier
      → String
      → store.State
      → Go (Response Transaction)
  unfolding parse_pending
  mempool_transaction_endpoint config node ni hash s =
      answer_pending_after node hash s (validate_network_identifier config ni)

  -- The two closures are written apart and come to the same.
  parse_pending-eq-parse_found :
      (t : TransactionResult) (raw : Option Bytes) (s : store.State)
      → parse_pending t raw s ≡ parse_found θ store decode t raw s
  unfolding parse_pending
  parse_pending-eq-parse_found t none s = refl
  parse_pending-eq-parse_found t (some raw) s = elim (Bool-cases ("not_found" =ˢ t.status)) [
    | inl e ↦ rw e
    | inr e ↦ rw (e, receipt_gas-eq-or_zero_gas t.gas_used)
  ]

  answer_pending-eq-answer_transaction :
      (res : Option Transaction) → answer_pending res ≡ answer_transaction θ store decode res
  answer_pending-eq-answer_transaction none = refl
  answer_pending-eq-answer_transaction (some tx) = refl

  answer_pending_after-eq-answer_transaction_after :
      (node : BlockNode) (hash : String) (s : store.State) (refusal : Option ApiError)
      → answer_pending_after node hash s refusal
        ≡ answer_transaction_after θ store decode node hash s refusal
  answer_pending_after-eq-answer_transaction_after node hash s (some e) = refl
  answer_pending_after-eq-answer_transaction_after node hash s none = λ i.
      handle_theta_rpc_response (node.transaction hash)
        (λ t. parse_pending-eq-parse_found t t.raw s i)
      >>= λ res. ok (answer_pending-eq-answer_transaction res i)

  -- With the process online, the mempool's endpoint for a transaction answers every request as the
  -- block's endpoint does.
  pub mempool_transaction_endpoint-eq-block_transaction_endpoint :
      (config : Config) (node : BlockNode) (ni : Option NetworkIdentifier) (hash : String)
      (s : store.State)
      → config.equal_fold "online" config.mode ≡ true
      → mempool_transaction_endpoint config node ni hash s
        ≡ block_transaction_endpoint θ store decode config node ni hash s
  unfolding mempool_transaction_endpoint block_transaction_endpoint guard_online
  mempool_transaction_endpoint-eq-block_transaction_endpoint config node ni hash s h = rw h (
      answer_pending_after-eq-answer_transaction_after node hash s
        (validate_network_identifier config ni))
