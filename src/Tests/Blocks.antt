-- ===== src/Tests/Blocks.antt =====
-- Two blocks, answered over a store in memory, and requests that panic.
use theta_rosetta_rpc_adapto.Prelude.{
  List, ◌≡◌, refl, ◌↔◌, none, some, [], ◌∷◌, map, true, arith, ◌=ˢ◌,
}
use theta_rosetta_rpc_adapto.Prelude.Int.{pos}
use theta_rosetta_rpc_adapto.Go.{ok, panic, index}
use theta_rosetta_rpc_adapto.Names.{TxType, block_status_string}
use theta_rosetta_rpc_adapto.Wire.{Transaction}
use theta_rosetta_rpc_adapto.Rpc.{Reply}
use theta_rosetta_rpc_adapto.StakeService.{
  ReturnStakeTx, height_bytes, ReturnStakeTxs, get_stake_for_tx, returned, find_in_pairs,
  find_holder_stake, find_stake,
}
use theta_rosetta_rpc_adapto.Transaction.{holds_hash, parse_tx}
use theta_rosetta_rpc_adapto.Block.{
  parse_txs, Tx, BlockResult, parse_block, block_of, return_transaction, returns_of,
  entry_transactions,
}
use theta_rosetta_rpc_adapto.Block.Content.{Shows, return_hashes, AreComplete, parse_block-Shows}
use theta_rosetta_rpc_adapto.Block.Reached.{Reaches, Reaches-Shows}
use theta_rosetta_rpc_adapto.Parse.Stakes.{parse_withdraw_stake_tx}
use theta_rosetta_rpc_adapto.Parse.Transfers.{parse_send_tx, send_operations, send_metadata}
use theta_rosetta_rpc_adapto.Transaction.Returns.{return_key}
use theta_rosetta_rpc_adapto.Block.Left.{block_left}
use theta_rosetta_rpc_adapto.Block.Once.{count, IsAtomic, KeepsHashes, IsAtMostOnce, IsOnce}
use theta_rosetta_rpc_adapto.Block.Served.{
  Serves, Serves-IsAtMostOnce, Serves-Shows, block_left-IsOnce,
}
use theta_rosetta_rpc_adapto.Block.Endpoints.{
  Config, NetworkIdentifier, TransactionResult, BlockNode, validate_network_identifier,
  guard_online, block_transaction_endpoint,
}
use theta_rosetta_rpc_adapto.Block.Guards.{
  IsOurs, validate_network_identifier-eq-none_iff, block_transaction_endpoint-eq-panic,
}
use theta_rosetta_rpc_adapto.Tests.{sample_theta, withdrawal, table_store, empty_table}
use theta_rosetta_rpc_adapto.Tests.Samples.{client, stake_of, decoder}

abbrev sent : Tx
sent = record { type = TxType.send_tx; hash = 2; gas_used = none; balance_changes = none }

-- The block at which a withdrawal of block 100 comes back, with a send.
abbrev later : BlockResult
later = record {
  height = 28900;
  hash = 1;
  parent = 2;
  timestamp = some (pos 1600000000);
  status = 4;
  tx_hash = 1;
  state_hash = 1;
  proposer = 1;
  txs = sent ∷ [];
  raws = some ([] ∷ []);
}

known_status : block_status_string 4 ≡ ok "directly_finalized"
unfolding block_status_string
known_status = refl

complete : AreComplete decoder (sent ∷ []) 0 ([] ∷ []) (sent ∷ [])
unfolding index
complete = (refl, ((pos 3, refl), omega arith), tt)

parse_block-Shows_example :
    Shows sample_theta table_store "directly_finalized"
      ("0x02" ∷ [])
      empty_table
      (parse_block sample_theta table_store decoder client (some later) empty_table)
parse_block-Shows_example =
    parse_block-Shows sample_theta table_store decoder client later (pos 1600000000)
      "directly_finalized" (sent ∷ []) empty_table refl known_status complete

has_stake :
    get_stake_for_tx sample_theta client withdrawal 100 ≡ ok (returned (some (stake_of 2 70)))
unfolding get_stake_for_tx find_in_pairs find_holder_stake find_stake
has_stake = refl

abbrev pub config : Config
config = record { mode = "online"; chain_id = "mainnet"; equal_fold = λ a b. a =ˢ b }

abbrev pub mainnet : NetworkIdentifier
mainnet = record { blockchain = "theta"; network = "mainnet"; sub_network = none }

validate_network_identifier-eq-none_iff_example :
    (validate_network_identifier config (some mainnet) ≡ none)
    ↔ ((ni : NetworkIdentifier) × (some mainnet ≡ some ni) × IsOurs config ni)
validate_network_identifier-eq-none_iff_example =
    validate_network_identifier-eq-none_iff config (some mainnet)

passes : guard_online config (some mainnet) ≡ none
unfolding guard_online
passes = refl

abbrev withdrawn : TransactionResult
withdrawn = record {
  status = "finalized";
  tx_hash = 1;
  type = TxType.withdraw_stake_tx;
  gas_used = none;
  balance_changes = none;
  raw = some [];
}

abbrev pub node : BlockNode
node = record {
  block_by_height = λ h. Reply.result (some later);
  block = λ h. Reply.result none;
  transaction = λ h. Reply.result withdrawn;
}

block_transaction_endpoint-eq-panic_example :
    block_transaction_endpoint sample_theta table_store decoder config node
      (some mainnet)
      "0x01"
      empty_table
    ≡ panic
block_transaction_endpoint-eq-panic_example =
    block_transaction_endpoint-eq-panic sample_theta table_store decoder config node (some mainnet)
      "0x01" withdrawn [] empty_table passes refl refl refl refl

abbrev stored_return : ReturnStakeTx
stored_return = record { hash = "0x03"; tx = withdrawal }

abbrev before : table_store.State
before = (table_store.put (height_bytes 28900) (stored_return ∷ []) empty_table).1

-- A block without entries.
abbrev quiet : BlockResult
quiet = record later { height = 5; txs = []; raws = none }

quiet_answered :
    parse_block sample_theta table_store decoder client (some quiet) before
    ≡ ok (
        some (
          block_of sample_theta quiet (pos 1600000000) "directly_finalized" (
              map
                (return_transaction sample_theta "directly_finalized")
                (returns_of (table_store.get (height_bytes 5) before))),
          before,
        ))
unfolding parse_block entry_transactions block_status_string index
quiet_answered = refl

holds_stored : holds_hash "0x03" (stored_return ∷ []) ≡ true
unfolding holds_hash
holds_stored = refl

Reaches-Shows_example :
    (rs : ReturnStakeTxs) × (holds_hash "0x03" rs ≡ true)
    × Shows sample_theta table_store "directly_finalized"
        ("0x02" ∷ return_hashes rs)
        before
        (parse_block sample_theta table_store decoder client (some later) before)
Reaches-Shows_example =
    Reaches-Shows sample_theta table_store decoder "0x03" before before client later
      (pos 1600000000) "directly_finalized" (sent ∷ []) ((λ h rs. refl), (λ rs. refl))
      (
        stored_return ∷ [],
        table_store.get-put_self (height_bytes 28900) (stored_return ∷ []) empty_table refl,
        holds_stored,
      )
      (Reaches.answer client quiet _ quiet_answered Reaches.start) refl known_status complete

-- A block with a send and a withdrawal, whose third raw entry has no struct: the request panics after
-- the withdrawal.
abbrev halted : BlockResult
halted = record later {
  height = 100;
  txs =
      sent
      ∷ record {
        type = TxType.withdraw_stake_tx;
        hash = 1;
        gas_used = none;
        balance_changes = none;
      }
      ∷ [];
  raws = some ([] ∷ [] ∷ [] ∷ []);
}

halts :
    (s : table_store.State)
    → parse_block sample_theta table_store decoder client (some halted) s ≡ panic
unfolding parse_block parse_tx parse_withdraw_stake_tx entry_transactions block_status_string index
    get_stake_for_tx find_in_pairs find_holder_stake find_stake parse_send_tx
halts s = refl

keeps_hashes : KeepsHashes table_store
keeps_hashes rs = refl

is_atomic : IsAtomic table_store
is_atomic key rs s e j = absurd (cc e)

Serves-IsAtMostOnce_example :
    IsAtMostOnce table_store "0x01"
      (height_bytes 28900)
      (block_left sample_theta table_store decoder client halted empty_table)
Serves-IsAtMostOnce_example =
    Serves-IsAtMostOnce sample_theta table_store decoder "0x01" (height_bytes 28900) empty_table
      (block_left sample_theta table_store decoder client halted empty_table) keeps_hashes is_atomic
      (λ rs e. absurd (cc e)) (Serves.broken_off client halted (halts empty_table) Serves.start)

stored_once : count "0x03" (return_hashes (stored_return ∷ [])) ≡ 1
stored_once = refl

Serves-Shows_example :
    (rs : ReturnStakeTxs) × (count "0x03" (return_hashes rs) ≡ 1)
    × Shows sample_theta table_store "directly_finalized"
        ("0x02" ∷ return_hashes rs)
        (block_left sample_theta table_store decoder client halted before)
        (parse_block sample_theta table_store decoder client
          (some later)
          (block_left sample_theta table_store decoder client halted before))
Serves-Shows_example =
    Serves-Shows sample_theta table_store decoder "0x03" before
      (block_left sample_theta table_store decoder client halted before) client later
      (pos 1600000000) "directly_finalized" (sent ∷ []) keeps_hashes is_atomic
      (
        stored_return ∷ [],
        table_store.get-put_self (height_bytes 28900) (stored_return ∷ []) empty_table refl,
        stored_once,
      )
      (Serves.answered client quiet _ quiet_answered
        (Serves.broken_off client halted (halts before) Serves.start))
      refl known_status complete

second_entry :
    index halted.txs 1
    ≡ ok (record {
      type = TxType.withdraw_stake_tx;
      hash = 1;
      gas_used = none;
      balance_changes = none;
    })
unfolding index
second_entry = refl

abbrev sent_parsed : List Transaction
sent_parsed =
    record {
      hash = "0x02";
      metadata = send_metadata (decoder.send []) TxType.send_tx;
      operations =
          send_operations sample_theta (some "directly_finalized") (pos 3) (decoder.send []);
    }
    ∷ []

sent_is_parsed :
    parse_txs sample_theta table_store decoder client "directly_finalized" 100 halted.txs 0
      ([] ∷ [])
      empty_table
    ≡ ok (sent_parsed, empty_table)
unfolding parse_txs parse_tx parse_send_tx index
sent_is_parsed = refl

block_left-IsOnce_example :
    IsOnce table_store "0x01"
      (return_key sample_theta table_store 100)
      (block_left sample_theta table_store decoder client halted empty_table)
block_left-IsOnce_example =
    block_left-IsOnce sample_theta table_store decoder client halted ([] ∷ []) [] ([] ∷ []) 1 none
      none (pos 1600000000) "directly_finalized" sent_parsed (stake_of 2 70) (pos 5) empty_table
      empty_table keeps_hashes is_atomic refl known_status refl sent_is_parsed second_entry refl
      has_stake refl (λ rs e. absurd (cc e))
