-- ===== src/Construction/Payloads/ContractTrip.antt =====
-- A contract call that is built from operations is parsed back, but for amounts of zero.
use theta_rosetta_rpc_adapto.Prelude.{
  ℕ, zero, suc, ◌+◌, ◌≡◌, refl, String, Bool, Option, none, some, List, [], ◌∷◌, ◌++◌, map,
}
use theta_rosetta_rpc_adapto.Prelude.Int.{ℤ, pos, negsuc, neg}
use theta_rosetta_rpc_adapto.Digits.{Bytes, big_string}
use theta_rosetta_rpc_adapto.Hex.{codes, hex_encode, hex_decode}
use theta_rosetta_rpc_adapto.Go.{ok}
use theta_rosetta_rpc_adapto.Names.{
  Currency, TxType, TxOpType, tx_op_type_string, get_tfuel_currency,
}
use theta_rosetta_rpc_adapto.Wire.{Metadata, Operation, Theta}
use theta_rosetta_rpc_adapto.Parse.{emit, emit_nonzero}
use theta_rosetta_rpc_adapto.Parse.Contracts.{
  contract_metadata, parse_smart_contract_tx_for_construction,
}
use theta_rosetta_rpc_adapto.Block.Endpoints.{
  Config, NetworkIdentifier, response, validate_network_identifier,
}
use theta_rosetta_rpc_adapto.Handler.{Appended, fine}
use theta_rosetta_rpc_adapto.Construction.{
  contract, Dynamic, Packages, find_key, get_operation_descriptions, contract_descriptions, join,
}
use theta_rosetta_rpc_adapto.Construction.Payloads.{
  Payloads, assembled_contract, assemble_contract, assemble, construction_payloads,
  construction_parse, parse_ledger_tx, signer_if,
}
use theta_rosetta_rpc_adapto.Construction.Payloads.SendTrip.{
  Line, line, resigned_contract, IsLedgerCodec, shown_address, found, construction_parse-hex_encode,
}

-- A line without its index.
abbrev pub Row : Type 0
Row = String × String × Bytes × Currency

abbrev pub numbered : ℕ → List Row → List Line
numbered n [] = []
numbered n ((t, account, value, currency) ∷ rows) =
    (pos n, t, account, value, currency) ∷ numbered (n + 1) rows

-- The row of an amount that is not zero.
abbrev pub unless_zero : ℤ → Row → List Row
unless_zero (pos zero) row = []
unless_zero (pos (suc n)) row = row ∷ []
unless_zero (negsuc n) row = row ∷ []

module _ (packages : Packages) (θ : Theta) where
  abbrev pub contract_lines : Operation → Operation → ℤ → ℤ → List Line
  contract_lines from to a0 a1 = numbered 0 (
      unless_zero a0 (
        tx_op_type_string TxOpType.smart_contract_tx_from,
        shown_address packages θ from,
        big_string a0,
        get_tfuel_currency,
      )
      ++ unless_zero a1 (
        tx_op_type_string TxOpType.smart_contract_tx_to,
        shown_address packages θ to,
        big_string a1,
        get_tfuel_currency,
      ))

  contract_operations-lines :
      (canon : Option Bytes → Option Bytes) (from to : Operation) (a0 a1 price : ℤ)
      (sequence limit : ℕ) (payload : Bytes)
      → map line
          (parse_smart_contract_tx_for_construction θ
            (resigned_contract canon
              (assembled_contract packages from to a0 (some a1) sequence price limit payload))
            TxType.smart_contract_tx).1
        ≡ contract_lines from to a0 a1
  unfolding parse_smart_contract_tx_for_construction emit_nonzero emit neg
  contract_operations-lines canon from to (pos zero) (pos zero) price sequence limit payload = refl
  contract_operations-lines canon from to (pos zero) (pos (suc n)) price sequence limit payload =
      refl
  contract_operations-lines canon from to (pos zero) (negsuc n) price sequence limit payload = refl
  contract_operations-lines canon from to (pos (suc m)) (pos zero) price sequence limit payload =
      refl
  contract_operations-lines canon from to (pos (suc m)) (pos (suc n)) price sequence limit payload =
      refl
  contract_operations-lines canon from to (pos (suc m)) (negsuc n) price sequence limit payload =
      refl
  contract_operations-lines canon from to (negsuc m) (pos zero) price sequence limit payload = refl
  contract_operations-lines canon from to (negsuc m) (pos (suc n)) price sequence limit payload =
      refl
  contract_operations-lines canon from to (negsuc m) (negsuc n) price sequence limit payload = refl

  -- A contract call's two operations, as the matcher of the Rosetta SDK orders them, are turned
  -- into a transaction whose text is parsed into those of them whose amount is not zero, numbered
  -- anew: a call without value comes back with no operation. The network identifier is valid, a
  -- sequence, a gas price, a gas limit and data are given that can be read, the transaction can be
  -- encoded, and the ledger reads back what it encodes.
  pub construction_parse-construction_payloads_contract :
      (canon : Option Bytes → Option Bytes) (config : Config) (ni : Option NetworkIdentifier)
      (signed : Bool) (o0 o1 : Operation) (metadata : List (String × Dynamic packages.Float))
      (sequence price limit : packages.Float) (text : String) (payload : Bytes) (gas_price : ℤ)
      (p0 p1 : Operation) (a0 a1 : ℤ) (raw : Bytes) (s : Appended)
      → IsLedgerCodec packages canon
      → validate_network_identifier config ni ≡ none
      → find_key "sequence" metadata ≡ some (Dynamic.float sequence)
      → find_key "gas_price" metadata ≡ some (Dynamic.float price)
      → find_key "gas_limit" metadata ≡ some (Dynamic.float limit)
      → find_key "data" metadata ≡ some (Dynamic.text text)
      → packages.parse_coin_amount (join (packages.float_text price) "wei") ≡ some gas_price
      → hex_decode (codes text) ≡ some payload
      → packages.match_operations contract_descriptions (o0 ∷ o1 ∷ [])
        ≡ fine (found p0 a0 ∷ found p1 a1 ∷ [])
      → packages.tx_to_bytes (
          contract (
            assembled_contract packages p0 p1 a0
              (some a1)
              (packages.float_u64 sequence)
              gas_price
              (packages.float_u64 limit)
              payload))
        ≡ fine raw
      → (p : Payloads) × (meta : Metadata) × (ops : List Operation) × (construction_payloads
            packages config ni
            (o0 ∷ o1 ∷ [])
            metadata
            s
          ≡ ok (response p, s))
        × (construction_parse packages θ config ni signed p.unsigned_transaction s
            ≡ ok (response (meta, ops, signer_if packages signed (shown_address packages θ p0)), s))
        × (map line ops ≡ contract_lines p0 p1 a0 a1)
  unfolding construction_payloads assemble assemble_contract get_operation_descriptions
      parse_smart_contract_tx_for_construction parse_ledger_tx
  construction_parse-construction_payloads_contract canon config ni signed o0 o1 metadata sequence
        price limit text payload gas_price p0 p1 a0 a1 raw s codec v q gp gl d pc hd m e =
      let tx =
        assembled_contract packages p0 p1 a0 (some a1) (packages.float_u64 sequence) gas_price
          (packages.float_u64 limit) payload in
      (
        record {
          unsigned_transaction = hex_encode raw;
          signer = o0.account;
          sign_hash = packages.keccak256 (packages.sign_bytes config.chain_id (contract tx));
        },
        contract_metadata (resigned_contract canon tx) TxType.smart_contract_tx,
        (parse_smart_contract_tx_for_construction θ (resigned_contract canon tx)
            TxType.smart_contract_tx).1,
        rw (v, q, m, gp, pc, gl, d, hd, e),
        construction_parse-hex_encode packages θ canon config ni signed (contract tx) raw s codec v
            e,
        contract_operations-lines canon p0 p1 a0 a1 gas_price (packages.float_u64 sequence)
            (packages.float_u64 limit) payload,
      )
