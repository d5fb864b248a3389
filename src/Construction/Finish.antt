-- ===== src/Construction/Finish.antt =====
-- `ConstructionCombine`, `ConstructionHash` and `ConstructionSubmit` of services/construction.go: from
-- an unsigned transaction and a signature to a transaction in the network.
use theta_rosetta_rpc_adapto.Prelude.{String, Option, none, some, List, [], ◌∷◌}
use theta_rosetta_rpc_adapto.Digits.{Bytes}
use theta_rosetta_rpc_adapto.Hex.{hex_encode, hex_decode, hex_text}
use theta_rosetta_rpc_adapto.Go.{ok}
use theta_rosetta_rpc_adapto.Wire.{Address, Theta}
use theta_rosetta_rpc_adapto.Errors.{
  err_invalid_input_param, err_unable_to_parse_tx, err_unable_to_submit_tx,
}
use theta_rosetta_rpc_adapto.Rpc.{Reply, handle_theta_rpc_response}
use theta_rosetta_rpc_adapto.Block.Endpoints.{Config, NetworkIdentifier}
use theta_rosetta_rpc_adapto.Handler.{
  Handler, ◌>>=◌, ◌>>◌, give, refuse_with, run_go, follow, or_refuse, require, attempt,
  valid_network, online_network,
}
use theta_rosetta_rpc_adapto.Construction.{LedgerTx, send, contract, other, Packages, join}
use theta_rosetta_rpc_adapto.Construction.Payloads.{read_tx}

-- A signature of a request: its bytes, and the address of its payload's account, where both pointers
-- on the way are set.
pub record Signature : Type 0 where
  pub bytes : Bytes
  pub signing_address : Option String

-- The only element.
abbrev pub exactly_one : List Signature → Option Signature
exactly_one (signature ∷ []) = some signature
exactly_one _ = none

module _ (packages : Packages) where
  -- `SetSignature`, by the type of the transaction.
  unfoldable pub signed_by : Address → Bytes → LedgerTx → Handler LedgerTx
  signed_by signer sig (send tx) = give (send (packages.set_send_signature signer sig tx))
  signed_by signer sig (contract tx) =
      give (contract (packages.set_contract_signature signer sig tx))
  signed_by signer sig (other n) = refuse_with err_unable_to_parse_tx "unsupported tx type"

  -- The last steps: the transaction is signed and written out.
  unfoldable pub write_signed : Address → Bytes → LedgerTx → Handler Bytes
  unfolding signed_by
  write_signed signer sig tx = do
    signed ← signed_by signer sig tx
    raw ←
        attempt (packages.tx_to_bytes signed) err_invalid_input_param
          (λ e. "Failed to encode transaction")
    give (hex_encode raw)

  -- The signature is verified for the signer, before them.
  unfoldable pub check_and_sign : Config → LedgerTx → Bytes → Address → Handler Bytes
  unfolding write_signed
  check_and_sign config tx sig signer = do
    let sign_bytes = packages.sign_bytes config.chain_id tx
    require (packages.verify sig sign_bytes signer) err_invalid_input_param
        (join "Signature verification failed, SignBytes: " (hex_text sign_bytes))
    write_signed signer sig tx

  -- The signature is read and its signer is looked up, before that.
  unfoldable pub sign_with : Config → LedgerTx → Signature → Handler Bytes
  unfolding check_and_sign
  sign_with config tx signature = do
    sig ←
        attempt (packages.signature_from_bytes signature.bytes) err_invalid_input_param
          (λ e. "Cannot convert signature from payload bytes")
    address ← follow signature.signing_address
    check_and_sign config tx sig (packages.hex_to_address address)

  -- A result is the hexadecimal text of the signed transaction.
  unfoldable pub construction_combine :
      Config → Option NetworkIdentifier → Bytes → List Signature → Handler Bytes
  unfolding sign_with
  construction_combine config ni unsigned signatures = do
    valid_network config ni
    tx ← read_tx packages unsigned
    signature ← or_refuse (exactly_one signatures) err_invalid_input_param "need exact 1 signature"
    sign_with config tx signature

  unfoldable pub construction_hash :
      Theta → Config → Option NetworkIdentifier → Bytes → Handler String
  construction_hash θ config ni signed = do
    valid_network config ni
    raw ←
        or_refuse (hex_decode signed) err_invalid_input_param
          (join "invalid signed transaction format: " (packages.hex_error signed))
    give (θ.hash_string (packages.hash_of raw))

-- Broadcasting: an answer is an error of `json.Unmarshal` or a hash; `error_text` is what the error of
-- a reply says.
unfoldable pub construction_submit :
    Config
    → (Bytes → Reply (Option String))
    → (Reply (Option String) → String)
    → Option NetworkIdentifier
    → Bytes
    → Handler String
construction_submit config broadcast error_text ni signed = do
  online_network config ni
  found ← run_go (handle_theta_rpc_response (broadcast signed) (λ answer. ok answer))
  or_refuse found err_unable_to_submit_tx (error_text (broadcast signed))
