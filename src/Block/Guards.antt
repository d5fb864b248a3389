-- ===== src/Block/Guards.antt =====
-- What the endpoints of services/block.go refuse, and where they panic.
use theta_rosetta_rpc_adapto.Prelude.{
  ◌≡◌, refl, sym, subst, ◌↔◌, inl, inr, String, Bool, true, false, Option, none, some, ◌=ˢ◌,
  Bool-cases,
}
use theta_rosetta_rpc_adapto.Digits.{Bytes}
use theta_rosetta_rpc_adapto.Go.{panic}
use theta_rosetta_rpc_adapto.Names.{TxType, chain_name}
use theta_rosetta_rpc_adapto.Wire.{Theta}
use theta_rosetta_rpc_adapto.Rpc.{Reply, handle_theta_rpc_response}
use theta_rosetta_rpc_adapto.Store.Interface.{Store}
use theta_rosetta_rpc_adapto.StakeService.{Client, ReturnStakeTxs}
use theta_rosetta_rpc_adapto.Transaction.{Decoder, parse_tx}
use theta_rosetta_rpc_adapto.Transaction.Returns.{parse_withdrawal-eq-panic}
use theta_rosetta_rpc_adapto.Block.Endpoints.{
  Config, NetworkIdentifier, TransactionResult, BlockNode, check_sub_network,
  validate_network_identifier, guard_online, block_reply, block_endpoint,
  block_transaction_endpoint, parse_found,
}

-- An identifier of this chain and network, up to case, and of no sub-network.
abbrev pub IsOurs : Config → NetworkIdentifier → Type 0
IsOurs config ni =
    (config.equal_fold ni.blockchain chain_name ≡ true)
    × (ni.sub_network ≡ none)
    × (config.equal_fold ni.network config.chain_id ≡ true)

check_sub_network-eq-none :
    (sub : Option String) (same : Bool)
    → check_sub_network sub same ≡ none
    → (sub ≡ none) × (same ≡ true)
check_sub_network-eq-none (some sub) same h = absurd (cc h)
check_sub_network-eq-none none true h = (refl, refl)
check_sub_network-eq-none none false h = absurd (cc h)

ours_validate :
    (config : Config) (ni : NetworkIdentifier)
    → IsOurs config ni
    → validate_network_identifier config (some ni) ≡ none
unfolding validate_network_identifier
ours_validate config ni (a, b, c) = rw (a, b, c)

-- A network identifier passes exactly when it is there, names the chain and the network up to case,
-- and has no sub-network.
pub validate_network_identifier-eq-none_iff :
    (config : Config) (given : Option NetworkIdentifier)
    → (validate_network_identifier config given ≡ none)
      ↔ ((ni : NetworkIdentifier) × (given ≡ some ni) × IsOurs config ni)
unfolding validate_network_identifier
validate_network_identifier-eq-none_iff config none =
    (λ h. absurd (cc h), λ (ni, e, o). absurd (cc e))
validate_network_identifier-eq-none_iff config (some ni) = (there, back)
  where
    there :
        validate_network_identifier config (some ni) ≡ none
        → (n : NetworkIdentifier) × (some ni ≡ some n) × IsOurs config n
    there h = elim (Bool-cases (config.equal_fold ni.blockchain chain_name)) [
      | inl e ↦
          let (a, b) = check_sub_network-eq-none ni.sub_network _ (rw e at h) in
          (ni, refl, (e, a, b))
      | inr n ↦ absurd (let q = rw n at h in cc q)
    ]

    back :
        ((n : NetworkIdentifier) × (some ni ≡ some n) × IsOurs config n)
        → validate_network_identifier config (some ni) ≡ none
    back (n, e, o) =
        subst (λ given. validate_network_identifier config given ≡ none) (sym e)
          (ours_validate config n o)

module _ (θ : Theta) (store : Store ReturnStakeTxs) (decode : Decoder) where
  -- With the process online and the network identifier valid, a block request with neither an index
  -- nor a hash makes no call, and the missing response is dereferenced: a panic.
  pub block_endpoint-eq-panic :
      (config : Config) (node : BlockNode) (client : Client) (ni : Option NetworkIdentifier)
      (s : store.State)
      → guard_online config ni ≡ none
      → block_endpoint θ store decode config node client ni none none s ≡ panic
  unfolding block_endpoint block_reply handle_theta_rpc_response
  block_endpoint-eq-panic config node client ni s g = rw g

  parse_found-eq-panic :
      (t : TransactionResult) (raw : Bytes) (s : store.State)
      → t.type ≡ TxType.withdraw_stake_tx
      → ("not_found" =ˢ t.status) ≡ false
      → parse_found θ store decode t (some raw) s ≡ panic
  unfolding parse_tx
  parse_found-eq-panic t raw s w n = rw (
    n,
    w,
    parse_withdrawal-eq-panic θ store (some t.status) none (decode.withdraw_stake raw)
        TxType.withdraw_stake_tx t.tx_hash 0 s tt,
  )

  -- With the process online and the network identifier valid, a request for a single transaction
  -- that the node finds and that is a withdrawal is a panic, since the services are not passed on.
  pub block_transaction_endpoint-eq-panic :
      (config : Config) (node : BlockNode) (ni : Option NetworkIdentifier) (hash : String)
      (t : TransactionResult) (raw : Bytes) (s : store.State)
      → guard_online config ni ≡ none
      → node.transaction hash ≡ Reply.result t
      → t.raw ≡ some raw
      → t.type ≡ TxType.withdraw_stake_tx
      → ("not_found" =ˢ t.status) ≡ false
      → block_transaction_endpoint θ store decode config node ni hash s ≡ panic
  unfolding block_transaction_endpoint handle_theta_rpc_response
  block_transaction_endpoint-eq-panic config node ni hash t raw s g r e w n =
      rw (g, r, e, parse_found-eq-panic t raw s w n)
