-- ===== src/Errors.antt =====
-- The errors of common/errors.go, as they are declared.
use theta_rosetta_rpc_adapto.Prelude.{ℕ, String, Bool, true, false, List, [], ◌∷◌}

pub record ApiError : Type 0 where
  pub code : ℕ
  pub message : String
  pub retriable : Bool

abbrev pub err_unable_to_get_chain_id : ApiError
err_unable_to_get_chain_id = record {
  code = 1;
  message = "unable to get chain ID";
  retriable = true;
}

abbrev pub err_invalid_blockchain : ApiError
err_invalid_blockchain = record {
  code = 2;
  message = "invalid blockchain specified in network identifier";
  retriable = false;
}

abbrev pub err_invalid_subnetwork : ApiError
err_invalid_subnetwork = record {
  code = 3;
  message = "invalid sub-network identifier";
  retriable = false;
}

abbrev pub err_invalid_network : ApiError
err_invalid_network = record {
  code = 4;
  message = "invalid network specified in network identifier";
  retriable = false;
}

abbrev pub err_missing_nid : ApiError
err_missing_nid = record { code = 5; message = "network identifier is missing"; retriable = false }

abbrev pub err_unable_to_get_latest_blk : ApiError
err_unable_to_get_latest_blk = record {
  code = 6;
  message = "unable to get latest block";
  retriable = true;
}

abbrev pub err_unable_to_get_genesis_blk : ApiError
err_unable_to_get_genesis_blk = record {
  code = 7;
  message = "unable to get genesis block";
  retriable = true;
}

abbrev pub err_unable_to_get_account : ApiError
err_unable_to_get_account = record { code = 8; message = "unable to get account"; retriable = true }

abbrev pub err_missing_block_hash_or_height : ApiError
err_missing_block_hash_or_height = record {
  code = 9;
  message = "missing block hash or height for querying block";
  retriable = false;
}

abbrev pub err_invalid_account_address : ApiError
err_invalid_account_address = record {
  code = 10;
  message = "invalid account address";
  retriable = false;
}

abbrev pub err_must_specify_sub_account : ApiError
err_must_specify_sub_account = record {
  code = 11;
  message = "a valid subaccount must be specified ('general' or 'escrow')";
  retriable = false;
}

abbrev pub err_unable_to_get_blk : ApiError
err_unable_to_get_blk = record { code = 12; message = "unable to get block"; retriable = false }

abbrev pub err_not_implemented : ApiError
err_not_implemented = record { code = 13; message = "operation not implemented"; retriable = false }

abbrev pub err_unable_to_get_txns : ApiError
err_unable_to_get_txns = record {
  code = 14;
  message = "unable to get transactions";
  retriable = false;
}

abbrev pub err_unable_to_submit_tx : ApiError
err_unable_to_submit_tx = record {
  code = 15;
  message = "unable to submit transaction";
  retriable = false;
}

abbrev pub err_unable_to_get_next_nonce : ApiError
err_unable_to_get_next_nonce = record {
  code = 16;
  message = "unable to get next nonce";
  retriable = true;
}

abbrev pub err_malformed_value : ApiError
err_malformed_value = record { code = 17; message = "malformed value"; retriable = false }

abbrev pub err_unable_to_get_node_status : ApiError
err_unable_to_get_node_status = record {
  code = 18;
  message = "unable to get node status";
  retriable = true;
}

abbrev pub err_invalid_input_param : ApiError
err_invalid_input_param = record { code = 19; message = "Invalid input param: "; retriable = false }

abbrev pub err_unsupported_public_key_type : ApiError
err_unsupported_public_key_type = record {
  code = 20;
  message = "unsupported public key type";
  retriable = false;
}

abbrev pub err_unable_to_parse_tx : ApiError
err_unable_to_parse_tx = record {
  code = 21;
  message = "unable to parse transaction";
  retriable = false;
}

abbrev pub err_invalid_gas_price : ApiError
err_invalid_gas_price = record { code = 22; message = "invalid gas price"; retriable = false }

abbrev pub err_unmarshal : ApiError
err_unmarshal = record { code = 23; message = "proto unmarshal error"; retriable = false }

abbrev pub err_construction_check : ApiError
err_construction_check = record {
  code = 24;
  message = "operation construction check error: ";
  retriable = true;
}

abbrev pub err_service_internal : ApiError
err_service_internal = record { code = 25; message = "Internal error: "; retriable = false }

abbrev pub err_exceeded_fee : ApiError
err_exceeded_fee = record { code = 26; message = "exceeded max fee"; retriable = true }

abbrev pub err_unable_to_estimate_gas : ApiError
err_unable_to_estimate_gas = record {
  code = 27;
  message = "unable to estimate gas: ";
  retriable = true;
}

abbrev pub err_unable_to_get_suggest_gas : ApiError
err_unable_to_get_suggest_gas = record {
  code = 28;
  message = "unable to get suggest gas: ";
  retriable = true;
}

abbrev pub err_unable_to_get_blk_tx : ApiError
err_unable_to_get_blk_tx = record {
  code = 29;
  message = "unable to get block transaction";
  retriable = true;
}

abbrev pub err_unable_to_get_mem_pool : ApiError
err_unable_to_get_mem_pool = record {
  code = 30;
  message = "unable to get mempool";
  retriable = true;
}

abbrev pub err_unable_to_get_mem_pool_tx : ApiError
err_unable_to_get_mem_pool_tx = record {
  code = 31;
  message = "unable to get mempool transaction";
  retriable = true;
}

abbrev pub err_unavailable_offline : ApiError
err_unavailable_offline = record {
  code = 32;
  message = "Endpoint unavailable offline";
  retriable = false;
}

abbrev pub err_db_key_not_found : ApiError
err_db_key_not_found = record { code = 33; message = "db key not found"; retriable = false }

pub error_list : List ApiError
error_list =
    err_unable_to_get_chain_id ∷ err_invalid_blockchain ∷ err_invalid_subnetwork
    ∷ err_invalid_network ∷ err_missing_nid ∷ err_unable_to_get_latest_blk
    ∷ err_unable_to_get_genesis_blk ∷ err_unable_to_get_account ∷ err_missing_block_hash_or_height
    ∷ err_invalid_account_address ∷ err_must_specify_sub_account ∷ err_unable_to_get_blk
    ∷ err_not_implemented ∷ err_unable_to_get_txns ∷ err_unable_to_submit_tx
    ∷ err_unable_to_get_next_nonce ∷ err_malformed_value ∷ err_unable_to_get_node_status
    ∷ err_invalid_input_param ∷ err_unsupported_public_key_type ∷ err_unable_to_parse_tx
    ∷ err_invalid_gas_price ∷ err_unmarshal ∷ err_construction_check ∷ err_service_internal
    ∷ err_exceeded_fee ∷ err_unable_to_estimate_gas ∷ err_unable_to_get_suggest_gas
    ∷ err_unable_to_get_blk_tx ∷ err_unable_to_get_mem_pool ∷ err_unable_to_get_mem_pool_tx
    ∷ err_unavailable_offline ∷ err_db_key_not_found ∷ []
