-- ===== src/Rpc.antt =====
-- Calls of the Theta node over JSON-RPC: what a call may come back with, `HandleThetaRPCResponse` and
-- `GetStatus` of common/utils.go. The client and the node are not part of the repository; a run is
-- given their answers.
use theta_rosetta_rpc_adapto.Prelude.{ℕ, String, Bool, Option, none, some, false}
use theta_rosetta_rpc_adapto.Prelude.Int.{ℤ}
use theta_rosetta_rpc_adapto.Go.{Go, ok, panic}
use theta_rosetta_rpc_adapto.Wire.{Hash}

-- An error of the client, no response and no error, an error of the node with its code, a result
-- that cannot be marshalled again, or the result as `json.Unmarshal` reads it.
pub data Reply {ℓ} (A : Type ℓ) : Type ℓ where
  call_failed : Reply A
  no_response : Reply A
  error_reply : ℤ → Reply A
  bad_result : Reply A
  result : A → Reply A

-- `HandleThetaRPCResponse`: `none` is an error. A missing response is dereferenced.
unfoldable pub handle_theta_rpc_response {ℓ κ} :
    {A : Type ℓ} {B : Type κ} → Reply A → (A → Go (Option B)) → Go (Option B)
handle_theta_rpc_response call_failed parse = ok none
handle_theta_rpc_response no_response parse = panic
handle_theta_rpc_response (error_reply code) parse = ok none
handle_theta_rpc_response bad_result parse = ok none
handle_theta_rpc_response (result a) parse = parse a

-- The fields of `GetStatusResult` that the code reads.
pub record Status : Type 0 where
  pub chain_id : String
  pub latest_finalized_block_hash : Hash
  pub latest_finalized_block_height : ℕ
  pub latest_finalized_block_time : Option ℤ
  pub current_height : ℕ
  pub syncing : Bool
  pub genesis_block_hash : Hash
  pub snapshot_block_height : ℕ
  pub snapshot_block_hash : Hash

-- The zero value of the struct.
abbrev pub zero_status : Status
zero_status = record {
  chain_id = "";
  latest_finalized_block_hash = 0;
  latest_finalized_block_height = 0;
  latest_finalized_block_time = none;
  current_height = 0;
  syncing = false;
  genesis_block_hash = 0;
  snapshot_block_height = 0;
  snapshot_block_hash = 0;
}

-- `GetStatus`: `none` is an error. The node's own error is not looked at: it leaves the zero value.
unfoldable pub get_status : Reply Status → Go (Option Status)
get_status call_failed = ok none
get_status no_response = panic
get_status (error_reply code) = ok (some zero_status)
get_status bad_result = ok none
get_status (result s) = ok (some s)
