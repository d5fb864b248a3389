-- ===== src/Assemble/Dispatch.antt =====
-- `AssembleTx` of common/utils.go: the types whose operations stand at fixed positions, and the switch.
use theta_rosetta_rpc_adapto.Prelude.{
  ℕ, String, Option, none, some, List, ◌==◌, ◌||◌, if◌then◌else◌,
}
use theta_rosetta_rpc_adapto.Prelude.Int.{ℤ, pos}
use theta_rosetta_rpc_adapto.Go.{Go, ok, ◌>>=◌}
use theta_rosetta_rpc_adapto.Names.{TxType, tx_code}
use theta_rosetta_rpc_adapto.Wire.{Coins, TxInput, TxOutput, Operation}
use theta_rosetta_rpc_adapto.Handler.{Fallible, fine, error}
use theta_rosetta_rpc_adapto.Construction.{find_key}
use theta_rosetta_rpc_adapto.Assemble.{
  AnyTx, Item, Library, as_float, as_coins, as_text, as_texts, as_splits, as_bytes,
  optional_pub_key, optional_bls, optional_signature, tfuel_only, amount_at, address_at, input_with,
  first_input, coins_at, assemble_coinbase, assemble_slash, assemble_send_tx,
}

module _ (library : Library) where
  abbrev pub Metadata : Type 0
  Metadata = List (String × Item library.Float)

  -- `uint64(meta[key].(float64))`
  abbrev pub number_of : String → Metadata → Go ℕ
  number_of key meta = as_float (find_key key meta) >>= (λ f. ok (library.float_u64 f))

  -- `uint8(meta["purpose"].(float64))`
  abbrev pub purpose_of : Metadata → Go ℕ
  purpose_of meta = as_float (find_key "purpose" meta) >>= (λ f. ok (library.float_byte f))

  -- Theta zero, and an amount of TFuel.
  abbrev pub no_theta : ℤ → Coins
  no_theta z = record { theta_wei = some (pos 0); tfuel_wei = some z }

  unfoldable pub assemble_reserve_fund : List Operation → Metadata → Coins → ℕ → Go AnyTx
  assemble_reserve_fund ops meta fee sequence = do
    source ← first_input library ops sequence
    collateral ← as_coins (find_key "collateral" meta)
    resource_ids ← as_texts (find_key "resource_ids" meta)
    duration ← number_of "duration" meta
    ok (
        AnyTx.reserve_fund (record {
          fee = fee;
          source = source;
          collateral = collateral;
          resource_ids = resource_ids;
          duration = duration;
        }))

  unfoldable pub assemble_release_fund : List Operation → Metadata → Coins → ℕ → Go AnyTx
  assemble_release_fund ops meta fee sequence = do
    source ← first_input library ops sequence
    reserve_sequence ← number_of "reserve_sequence" meta
    ok (
        AnyTx.release_fund
          (record { fee = fee; source = source; reserve_sequence = reserve_sequence }))

  unfoldable pub assemble_service_payment : List Operation → Metadata → Coins → ℕ → Go AnyTx
  assemble_service_payment ops meta fee sequence = do
    source ← first_input library ops sequence
    amount ← amount_at library ops 1
    address ← address_at library ops 1
    payment_sequence ← number_of "payment_sequence" meta
    reserve_sequence ← number_of "reserve_sequence" meta
    resource_id ← as_text (find_key "resource_id" meta)
    ok (
        AnyTx.service_payment (record {
          fee = fee;
          source = source;
          target = input_with library address (tfuel_only amount) 0;
          payment_sequence = payment_sequence;
          reserve_sequence = reserve_sequence;
          resource_id = resource_id;
        }))

  unfoldable pub assemble_split_rule : List Operation → Metadata → Coins → ℕ → Go AnyTx
  assemble_split_rule ops meta fee sequence = do
    initiator ← first_input library ops sequence
    resource_id ← as_text (find_key "resource_id" meta)
    split_list ← as_splits (find_key "splits" meta)
    duration ← number_of "duration" meta
    ok (
        AnyTx.split_rule (record {
          fee = fee;
          resource_id = resource_id;
          initiator = initiator;
          splits = split_list;
          duration = duration;
        }))

  unfoldable pub assemble_smart_contract : List Operation → Metadata → ℕ → Go AnyTx
  assemble_smart_contract ops meta sequence = do
    from_tfuel ← amount_at library ops 0
    to_tfuel ← amount_at library ops 1
    from ← address_at library ops 0
    to ← address_at library ops 1
    gas_limit ← number_of "gas_limit" meta
    price ← as_float (find_key "gas_price" meta)
    payload ← as_bytes (find_key "data" meta)
    ok (
        AnyTx.smart_contract (record {
          from = input_with library from (no_theta from_tfuel) sequence;
          to = record { address = to; coins = no_theta to_tfuel };
          gas_limit = gas_limit;
          gas_price = some (library.float_i64 price);
          payload = payload;
        }))

  -- The first two operations are the source's amounts, the next two the holder's; the holder's address
  -- is that of the second.
  abbrev pub source_and_holder : List Operation → ℕ → Go (TxInput × TxOutput)
  source_and_holder ops sequence = do
    source_coins ← coins_at library ops 0 1
    holder_coins ← coins_at library ops 2 3
    source ← address_at library ops 0
    holder ← address_at library ops 1
    ok (
      input_with library source source_coins sequence,
      record { address = holder; coins = holder_coins },
    )

  unfoldable pub assemble_deposit_stake : List Operation → Metadata → Coins → ℕ → Go AnyTx
  assemble_deposit_stake ops meta fee sequence = do
    parties ← source_and_holder ops sequence
    purpose ← purpose_of meta
    key ← optional_pub_key (find_key "bls_pub_key" meta)
    pop ← optional_bls (find_key "bls_pop" meta)
    holder_sig ← optional_signature (find_key "holder_sig" meta)
    ok (
        AnyTx.deposit_stake (record {
          fee = fee;
          source = parties.0;
          holder = parties.1;
          purpose = purpose;
          bls_pubkey = key;
          bls_pop = pop;
          holder_sig = holder_sig;
        }))

  unfoldable pub assemble_withdraw_stake : List Operation → Metadata → Coins → ℕ → Go AnyTx
  assemble_withdraw_stake ops meta fee sequence = do
    parties ← source_and_holder ops sequence
    purpose ← purpose_of meta
    ok (
        AnyTx.withdraw_stake
          (record { fee = fee; source = parties.0; holder = parties.1; purpose = purpose }))

  unfoldable pub assemble_reward_distribution : List Operation → Metadata → Coins → ℕ → Go AnyTx
  assemble_reward_distribution ops meta fee sequence = do
    parties ← source_and_holder ops sequence
    point ← number_of "split_basis_point" meta
    ok (
        AnyTx.reward_distribution (record {
          fee = fee;
          holder = parties.0;
          beneficiary = parties.1;
          split_basis_point = point;
        }))

  abbrev pub succeed : Go AnyTx → Go (Fallible AnyTx)
  succeed m = m >>= (λ tx. ok (fine tx))

  -- By the byte of the type, in the order of the cases.
  unfoldable pub assemble_by_type : ℕ → List Operation → Metadata → Coins → ℕ → Go (Fallible AnyTx)
  unfolding assemble_reserve_fund assemble_release_fund assemble_service_payment assemble_split_rule
      assemble_smart_contract assemble_deposit_stake assemble_withdraw_stake
      assemble_reward_distribution
  assemble_by_type code ops meta fee sequence =
      if code == tx_code TxType.coinbase_tx
      then succeed (assemble_coinbase library ops sequence)
      else if code == tx_code TxType.slash_tx
      then succeed (assemble_slash library ops sequence)
      else if code == tx_code TxType.send_tx
      then succeed (assemble_send_tx library ops fee sequence)
      else if code == tx_code TxType.reserve_fund_tx
      then succeed (assemble_reserve_fund ops meta fee sequence)
      else if code == tx_code TxType.release_fund_tx
      then succeed (assemble_release_fund ops meta fee sequence)
      else if code == tx_code TxType.service_payment_tx
      then succeed (assemble_service_payment ops meta fee sequence)
      else if code == tx_code TxType.split_rule_tx
      then succeed (assemble_split_rule ops meta fee sequence)
      else if code == tx_code TxType.smart_contract_tx
      then succeed (assemble_smart_contract ops meta sequence)
      else if code == tx_code TxType.deposit_stake_tx || code == tx_code TxType.deposit_stake_v2_tx
      then succeed (assemble_deposit_stake ops meta fee sequence)
      else if code == tx_code TxType.withdraw_stake_tx
      then succeed (assemble_withdraw_stake ops meta fee sequence)
      else if code == tx_code TxType.stake_reward_distribution_tx
      then succeed (assemble_reward_distribution ops meta fee sequence)
      else ok (error "unsupported tx type")

  -- What follows the two checks for missing keys.
  abbrev pub assemble_with :
      List Operation
      → Metadata
      → Option (Item library.Float)
      → Option (Item library.Float)
      → Go (Fallible AnyTx)
  assemble_with ops meta none sequence = ok (error "missing tx type")
  assemble_with ops meta (some type) none = ok (error "missing tx sequence")
  assemble_with ops meta (some type) (some sequence) = do
    code ← as_float (some type)
    number ← as_float (some sequence)
    fee ← as_float (find_key "fee" meta)
    assemble_by_type (library.float_byte code) ops meta (tfuel_only (library.float_i64 fee))
        (library.float_u64 number)

  unfoldable pub assemble_tx : List Operation → Metadata → Go (Fallible AnyTx)
  unfolding assemble_by_type
  assemble_tx ops meta = assemble_with ops meta (find_key "type" meta) (find_key "sequence" meta)
