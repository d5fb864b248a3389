-- ===== src/Construction/Payloads/SendTrip.antt =====
-- A send that is built from operations is parsed back into them.
use theta_rosetta_rpc_adapto.Prelude.{ℕ, ◌≡◌, String, Bool, Option, none, some, List, [], ◌∷◌, map}
use theta_rosetta_rpc_adapto.Prelude.Int.{ℤ, pos, neg, ◌+ℤ◌, ◌-ℤ◌, neg-neg, int_laws}
use theta_rosetta_rpc_adapto.Digits.{Bytes, big_string}
use theta_rosetta_rpc_adapto.Hex.{hex_encode}
use theta_rosetta_rpc_adapto.Hex.RoundTrip.{AreBytes, hex_decode-hex_encode}
use theta_rosetta_rpc_adapto.Go.{ok}
use theta_rosetta_rpc_adapto.Names.{
  Currency, TxType, TxOpType, tx_op_type_string, get_theta_currency, get_tfuel_currency,
}
use theta_rosetta_rpc_adapto.Wire.{
  Coins, TxOutput, TxInput, SendTx, SmartContractTx, Metadata, Operation, Theta,
}
use theta_rosetta_rpc_adapto.Parse.{emit}
use theta_rosetta_rpc_adapto.Parse.Transfers.{
  parse_send_tx, send_operations, send_inputs, send_input, send_outputs, send_output, last_address,
  send_metadata,
}
use theta_rosetta_rpc_adapto.Block.Endpoints.{
  Config, NetworkIdentifier, response, validate_network_identifier,
}
use theta_rosetta_rpc_adapto.Handler.{Appended, fine}
use theta_rosetta_rpc_adapto.Construction.{
  LedgerTx, send, contract, Match, Dynamic, Packages, find_key, get_operation_descriptions,
  send_descriptions,
}
use theta_rosetta_rpc_adapto.Construction.Payloads.{
  Payloads, assembled_send, assemble_send, assemble, construction_payloads, construction_parse,
  parse_ledger_tx, signer_if,
}

-- What an operation shows of itself: index, type, account, amount and currency.
abbrev pub Line : Type 0
Line = ℤ × String × String × Bytes × Currency

abbrev pub line : Operation → Line
line op = (op.identifier, op.op_type, op.account, op.amount.value, op.amount.currency)

-- An amount that is missing is read as zero.
abbrev pub settled : Option ℤ → Option ℤ
settled none = some (pos 0)
settled (some z) = some z

abbrev pub settled_coins : Coins → Coins
settled_coins coins = record {
  theta_wei = settled coins.theta_wei;
  tfuel_wei = settled coins.tfuel_wei;
}

abbrev pub settled_output : TxOutput → TxOutput
settled_output output = record output { coins = settled_coins output.coins }

abbrev pub resigned_input : (Option Bytes → Option Bytes) → TxInput → TxInput
resigned_input canon input = record input {
  coins = settled_coins input.coins;
  signature = canon input.signature;
}

abbrev pub resigned_send : (Option Bytes → Option Bytes) → SendTx → SendTx
resigned_send canon tx = record tx {
  fee = settled_coins tx.fee;
  inputs = map (resigned_input canon) tx.inputs;
  outputs = map settled_output tx.outputs;
}

abbrev pub resigned_contract : (Option Bytes → Option Bytes) → SmartContractTx → SmartContractTx
resigned_contract canon tx = record tx {
  from = resigned_input canon tx.from;
  to = settled_output tx.to;
  gas_price = settled tx.gas_price;
}

-- A transaction as it comes back from its bytes: a missing signature may be read as an empty one.
abbrev pub reread : (Option Bytes → Option Bytes) → LedgerTx → LedgerTx
reread canon (send tx) = send (resigned_send canon tx)
reread canon (contract tx) = contract (resigned_contract canon tx)
reread canon (LedgerTx.other n) = LedgerTx.other n

-- The ledger's documentation: a transaction that has been encoded is read back from its bytes.
pub record IsLedgerCodec (packages : Packages) (canon : Option Bytes → Option Bytes) : Type 0 where
  pub encoded_bytes :
      (tx : LedgerTx) (raw : Bytes) → packages.tx_to_bytes tx ≡ fine raw → AreBytes raw
  pub tx_from_bytes-tx_to_bytes :
      (tx : LedgerTx) (raw : Bytes)
      → packages.tx_to_bytes tx ≡ fine raw
      → packages.tx_from_bytes raw ≡ fine (reread canon tx)

input_amount : (a fee : ℤ) → neg (neg a +ℤ neg fee -ℤ neg fee) ≡ a
input_amount a fee = omega (int_laws)

-- An operation with its amount, as the matcher finds it.
abbrev pub found : Operation → ℤ → Match
found op a = record { op = some op; amount = some a }

module _ (packages : Packages) (θ : Theta) where
  abbrev pub shown_address : Operation → String
  shown_address op = θ.address_string (packages.hex_to_address op.account)

  -- The operations of a send, from the accounts of its parties and its five amounts.
  abbrev pub send_lines : Operation → Operation → ℤ → ℤ → ℤ → ℤ → ℤ → List Line
  send_lines from to a0 a1 a2 a3 a4 =
      (
        pos 0,
        tx_op_type_string TxOpType.send_tx_input,
        shown_address from,
        big_string a0,
        get_theta_currency,
      )
      ∷ (
        pos 1,
        tx_op_type_string TxOpType.send_tx_input,
        shown_address from,
        big_string a1,
        get_tfuel_currency,
      )
      ∷ (
        pos 2,
        tx_op_type_string TxOpType.send_tx_output,
        shown_address to,
        big_string a2,
        get_theta_currency,
      )
      ∷ (
        pos 3,
        tx_op_type_string TxOpType.send_tx_output,
        shown_address to,
        big_string a3,
        get_tfuel_currency,
      )
      ∷ (
        pos 4,
        tx_op_type_string TxOpType.tx_fee,
        shown_address from,
        big_string a4,
        get_tfuel_currency,
      )
      ∷ []

  send_operations-lines :
      (canon : Option Bytes → Option Bytes) (from to : Operation) (a0 a1 a2 a3 a4 : ℤ)
      (sequence : ℕ)
      → map line (
          send_operations θ none (neg a4) (
            resigned_send canon
              (assembled_send packages from to a0 a1 (some a2) (some a3) a4 sequence)))
        ≡ send_lines from to a0 a1 a2 a3 a4
  unfolding send_operations send_inputs send_input send_outputs send_output last_address emit
  send_operations-lines canon from to a0 a1 a2 a3 a4 sequence =
      rw (input_amount a1 a4, neg-neg a0, neg-neg a4)

  -- A transaction whose bytes were shown as a hexadecimal text is the one that is parsed.
  pub construction_parse-hex_encode :
      (canon : Option Bytes → Option Bytes) (config : Config) (ni : Option NetworkIdentifier)
      (signed : Bool) (tx : LedgerTx) (raw : Bytes) (s : Appended)
      → IsLedgerCodec packages canon
      → validate_network_identifier config ni ≡ none
      → packages.tx_to_bytes tx ≡ fine raw
      → construction_parse packages θ config ni signed (hex_encode raw) s
        ≡ parse_ledger_tx packages θ signed (reread canon tx) s
  unfolding construction_parse
  construction_parse-hex_encode canon config ni signed tx raw s codec v e = rw (
    v,
    hex_decode-hex_encode raw (codec.encoded_bytes tx raw e),
    codec.tx_from_bytes-tx_to_bytes tx raw e,
  )

  -- A send's five operations, as the matcher of the Rosetta SDK orders them, are turned into a
  -- transaction whose text is parsed into five operations again: with the same amounts, currencies
  -- and types, and with the accounts of the first and the third match. The network identifier is
  -- valid, a sequence is given, the transaction can be encoded, and the ledger reads back what it
  -- encodes.
  pub construction_parse-construction_payloads :
      (canon : Option Bytes → Option Bytes) (config : Config) (ni : Option NetworkIdentifier)
      (signed : Bool) (o0 o1 o2 o3 o4 : Operation)
      (metadata : List (String × Dynamic packages.Float)) (sequence : packages.Float)
      (p0 p1 p2 p3 p4 : Operation) (a0 a1 a2 a3 a4 : ℤ) (raw : Bytes) (s : Appended)
      → IsLedgerCodec packages canon
      → validate_network_identifier config ni ≡ none
      → find_key "sequence" metadata ≡ some (Dynamic.float sequence)
      → packages.match_operations send_descriptions (o0 ∷ o1 ∷ o2 ∷ o3 ∷ o4 ∷ [])
        ≡ fine (found p0 a0 ∷ found p1 a1 ∷ found p2 a2 ∷ found p3 a3 ∷ found p4 a4 ∷ [])
      → packages.tx_to_bytes (
          send (
            assembled_send packages p0 p2 a0 a1
              (some a2)
              (some a3)
              a4
              (packages.float_u64 sequence)))
        ≡ fine raw
      → (p : Payloads) × (meta : Metadata) × (ops : List Operation) × (construction_payloads
            packages config ni
            (o0 ∷ o1 ∷ o2 ∷ o3 ∷ o4 ∷ [])
            metadata
            s
          ≡ ok (response p, s))
        × (construction_parse packages θ config ni signed p.unsigned_transaction s
            ≡ ok (response (meta, ops, signer_if packages signed (shown_address p0)), s))
        × (map line ops ≡ send_lines p0 p2 a0 a1 a2 a3 a4)
  unfolding construction_payloads assemble assemble_send get_operation_descriptions parse_ledger_tx
      parse_send_tx
  construction_parse-construction_payloads canon config ni signed o0 o1 o2 o3 o4 metadata sequence
        p0 p1 p2 p3 p4 a0 a1 a2 a3 a4 raw s codec v q m e =
      let tx =
        assembled_send packages p0 p2 a0 a1 (some a2) (some a3) a4 (packages.float_u64 sequence) in
      (
        record {
          unsigned_transaction = hex_encode raw;
          signer = o0.account;
          sign_hash = packages.keccak256 (packages.sign_bytes config.chain_id (send tx));
        },
        send_metadata (resigned_send canon tx) TxType.send_tx,
        send_operations θ none (neg a4) (resigned_send canon tx),
        rw (v, q, m, e),
        construction_parse-hex_encode canon config ni signed (send tx) raw s codec v e,
        send_operations-lines canon p0 p2 a0 a1 a2 a3 a4 (packages.float_u64 sequence),
      )
