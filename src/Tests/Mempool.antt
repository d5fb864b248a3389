-- ===== src/Tests/Mempool.antt =====
-- A transaction that is asked for at the mempool's endpoint and at the block's.
use theta_rosetta_rpc_adapto.Prelude.{◌≡◌, refl, some}
use theta_rosetta_rpc_adapto.Block.Endpoints.{block_transaction_endpoint}
use theta_rosetta_rpc_adapto.Mempool.{
  mempool_transaction_endpoint, mempool_transaction_endpoint-eq-block_transaction_endpoint,
}
use theta_rosetta_rpc_adapto.Tests.{sample_theta, table_store, empty_table}
use theta_rosetta_rpc_adapto.Tests.Samples.{decoder}
use theta_rosetta_rpc_adapto.Tests.Blocks.{config, node, mainnet}

mempool_transaction_endpoint-eq-block_transaction_endpoint_example :
    mempool_transaction_endpoint sample_theta table_store decoder config node
      (some mainnet)
      "0x01"
      empty_table
    ≡ block_transaction_endpoint sample_theta table_store decoder config node
        (some mainnet)
        "0x01"
        empty_table
mempool_transaction_endpoint-eq-block_transaction_endpoint_example =
    mempool_transaction_endpoint-eq-block_transaction_endpoint sample_theta table_store decoder
      config node (some mainnet) "0x01" empty_table refl
