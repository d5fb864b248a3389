-- ===== src/Tests/Constructions.antt =====
-- A send and a contract call that are built, parsed, signed and hashed, and a session of requests.
use theta_rosetta_rpc_adapto.Prelude.{
  ℕ, ◌≡◌, refl, ◌↔◌, String, true, false, none, some, List, [], ◌∷◌, map, ◌+◌, ◌%◌,
}
use theta_rosetta_rpc_adapto.Prelude.Int.{pos, negsuc, neg, ◌+ℤ◌}
use theta_rosetta_rpc_adapto.Digits.{Bytes}
use theta_rosetta_rpc_adapto.Hex.{hex_encode, hex_decode}
use theta_rosetta_rpc_adapto.Go.{ok}
use theta_rosetta_rpc_adapto.Wire.{Operation, Metadata}
use theta_rosetta_rpc_adapto.Rpc.{Reply, handle_theta_rpc_response, zero_status}
use theta_rosetta_rpc_adapto.StakeService.{u64_mod}
use theta_rosetta_rpc_adapto.Names.{tx_code}
use theta_rosetta_rpc_adapto.Block.Endpoints.{response, validate_network_identifier, guard_online}
use theta_rosetta_rpc_adapto.Handler.{nothing_appended, fine}
use theta_rosetta_rpc_adapto.Construction.{LedgerTx, Dynamic, find_key}
use theta_rosetta_rpc_adapto.Construction.Payloads.{
  Payloads, construction_payloads, construction_parse, parse_ledger_tx,
}
use theta_rosetta_rpc_adapto.Construction.Payloads.SendTrip.{
  line, send_lines, reread, construction_parse-construction_payloads,
}
use theta_rosetta_rpc_adapto.Construction.Payloads.ContractTrip.{
  contract_lines, construction_parse-construction_payloads_contract,
}
use theta_rosetta_rpc_adapto.Construction.Finish.{
  Signature, construction_combine, construction_hash,
}
use theta_rosetta_rpc_adapto.Construction.Signing.{
  IsSigned, Signs, construction_combine-eq-response_iff, construction_hash-construction_combine,
}
use theta_rosetta_rpc_adapto.Construction.Preprocess.{construction_preprocess}
use theta_rosetta_rpc_adapto.Construction.Suggest.{
  AccountAnswer, Entry, Suggestion, fee_amount, suggest_by_type, suggest_send, suggest_fee,
  construction_metadata,
}
use theta_rosetta_rpc_adapto.Construction.Options.{
  account_checks, first_failing, unless_refused, send_options, SignerHas,
  construction_preprocess-unless_refused, construction_metadata-SignerHas,
}
use theta_rosetta_rpc_adapto.Tests.{sample_theta}
use theta_rosetta_rpc_adapto.Tests.Blocks.{config, mainnet}
use theta_rosetta_rpc_adapto.Tests.Codec.{
  sent, kept, codec, encodes_sent, encodes_signed, encodes_called, o0, o1, o2, o3, o4, c0, c1,
  sample_packages,
}

abbrev numbers : List (String × Dynamic ℕ)
numbers = ("sequence", Dynamic.float 5) ∷ []

is_valid : validate_network_identifier config (some mainnet) ≡ none
unfolding validate_network_identifier
is_valid = refl

is_online : guard_online config (some mainnet) ≡ none
unfolding guard_online validate_network_identifier
is_online = refl

has_sequence : find_key "sequence" numbers ≡ some (Dynamic.float 5)
unfolding find_key
has_sequence = refl

abbrev send_ops : List Operation
send_ops = o0 ∷ o1 ∷ o2 ∷ o3 ∷ o4 ∷ []

construction_parse-construction_payloads_example :
    (p : Payloads) × (meta : Metadata) × (ops : List Operation) × (construction_payloads
        sample_packages config
        (some mainnet)
        send_ops
        numbers
        nothing_appended
      ≡ ok (response p, nothing_appended))
    × (construction_parse sample_packages sample_theta config
          (some mainnet)
          false
          p.unsigned_transaction
          nothing_appended
        ≡ ok (response (meta, ops, none), nothing_appended))
    × (map line ops
        ≡ send_lines sample_packages sample_theta o0 o2
            (negsuc 2)
            (negsuc 9)
            (pos 3)
            (pos 10)
            (negsuc 0))
unfolding neg ◌+ℤ◌
construction_parse-construction_payloads_example =
    construction_parse-construction_payloads sample_packages sample_theta kept config (some mainnet)
      false o0 o1 o2 o3 o4 numbers 5 o0 o1 o2 o3 o4 (negsuc 2) (negsuc 9) (pos 3) (pos 10)
      (negsuc 0) [] nothing_appended codec is_valid has_sequence refl encodes_sent

abbrev one_signature : List Signature
one_signature = record { bytes = 7 ∷ []; signing_address = some "0x01" } ∷ []

reads_empty : hex_decode [] ≡ some []
unfolding hex_decode
reads_empty = refl

shows_one : hex_encode (1 ∷ []) ≡ 48 ∷ 49 ∷ []
unfolding hex_encode
shows_one = refl

is_signed : IsSigned sample_packages config [] one_signature (48 ∷ 49 ∷ [])
unfolding hex_encode
is_signed = record {
  tx = sent none;
  signature = record { bytes = 7 ∷ []; signing_address = some "0x01" };
  sig = 7 ∷ [];
  address = "0x01";
  signed_tx = sent (some (7 ∷ []));
  raw = 1 ∷ [];
  encoded = ([], reads_empty, refl);
  only_one = refl;
  read = refl;
  by = refl;
  verified = refl;
  set = Signs.signs_send;
  written = encodes_signed;
  shown = refl;
}

construction_combine-eq-response_iff_example :
    (construction_combine sample_packages config (some mainnet) [] one_signature nothing_appended
      ≡ ok (response (48 ∷ 49 ∷ []), nothing_appended))
    ↔ IsSigned sample_packages config [] one_signature (48 ∷ 49 ∷ [])
construction_combine-eq-response_iff_example =
    construction_combine-eq-response_iff sample_packages config (some mainnet) [] one_signature
      (48 ∷ 49 ∷ []) nothing_appended is_valid

responds_signed :
    construction_combine sample_packages config (some mainnet) [] one_signature nothing_appended
    ≡ ok (response (48 ∷ 49 ∷ []), nothing_appended)
responds_signed =
    (construction_combine-eq-response_iff sample_packages config (some mainnet) [] one_signature
        (48 ∷ 49 ∷ []) nothing_appended is_valid).1
      is_signed

construction_hash-construction_combine_example :
    (signed_tx : LedgerTx) × (raw : Bytes) × (sample_packages.tx_to_bytes signed_tx ≡ fine raw)
    × (construction_hash sample_packages sample_theta config
          (some mainnet)
          (48 ∷ 49 ∷ [])
          nothing_appended
        ≡ ok (response (sample_theta.hash_string (sample_packages.hash_of raw)), nothing_appended))
    × (construction_parse sample_packages sample_theta config
          (some mainnet)
          true
          (48 ∷ 49 ∷ [])
          nothing_appended
        ≡ parse_ledger_tx sample_packages sample_theta true
            (reread kept signed_tx)
            nothing_appended)
construction_hash-construction_combine_example =
    construction_hash-construction_combine sample_packages sample_theta kept config (some mainnet)
      [] one_signature (48 ∷ 49 ∷ []) nothing_appended nothing_appended codec is_valid
      responds_signed

construction_preprocess-unless_refused_example :
    construction_preprocess sample_packages config (some mainnet) send_ops numbers nothing_appended
    ≡ unless_refused
        (first_failing (account_checks o0 o1 o2 o3 o4))
        (send_options sample_packages o0 (negsuc 0) numbers)
        nothing_appended
construction_preprocess-unless_refused_example =
    construction_preprocess-unless_refused sample_packages config (some mainnet) o0 o1 o2 o3 o4
      numbers o0 o1 o2 o3 o4 (negsuc 2) (negsuc 9) (pos 3) (pos 10) (negsuc 0) nothing_appended
      is_valid refl

abbrev call_numbers : List (String × Dynamic ℕ)
call_numbers =
    ("sequence", Dynamic.float 5)
    ∷ ("gas_price", Dynamic.float 0)
    ∷ ("gas_limit", Dynamic.float 10000000)
    ∷ ("data", Dynamic.text "")
    ∷ []

HasCall : (key : String) (v : Dynamic ℕ) → Type 0
HasCall key v = find_key key call_numbers ≡ some v

numbers_found :
    HasCall "sequence" (Dynamic.float 5)
    × HasCall "gas_price" (Dynamic.float 0)
    × HasCall "gas_limit" (Dynamic.float 10000000)
    × HasCall "data" (Dynamic.text "")
unfolding HasCall find_key
numbers_found = (refl, refl, refl, refl)

construction_parse-construction_payloads_contract_example :
    (p : Payloads) × (meta : Metadata) × (ops : List Operation) × (construction_payloads
        sample_packages config
        (some mainnet)
        (c0 ∷ c1 ∷ [])
        call_numbers
        nothing_appended
      ≡ ok (response p, nothing_appended))
    × (construction_parse sample_packages sample_theta config
          (some mainnet)
          true
          p.unsigned_transaction
          nothing_appended
        ≡ ok (response (meta, ops, some "0x01"), nothing_appended))
    × (map line ops ≡ contract_lines sample_packages sample_theta c0 c1 (negsuc 3) (pos 4))
unfolding neg HasCall
construction_parse-construction_payloads_contract_example =
    construction_parse-construction_payloads_contract sample_packages sample_theta kept config
      (some mainnet) true c0 c1 call_numbers 5 0 10000000 "" [] (pos 0) c0 c1 (negsuc 3) (pos 4)
      (2 ∷ 2 ∷ []) nothing_appended codec is_valid numbers_found.0 numbers_found.1 numbers_found.2
      numbers_found.3 refl reads_empty refl encodes_called

abbrev sample_account : AccountAnswer
sample_account =
    some (some (record { sequence = 4; balance = record { theta_wei = none; tfuel_wei = none } }))

abbrev ask_account : String → Reply AccountAnswer
ask_account address = Reply.result sample_account

abbrev sample_options : List (String × Dynamic ℕ)
sample_options =
    ("type", Dynamic.float 2) ∷ ("fee", Dynamic.float 6) ∷ ("signer", Dynamic.text "0x01") ∷ []

abbrev suggestion : Suggestion ℕ
suggestion = record {
  metadata = ("sequence", Entry.number 5) ∷ ("fee", Entry.amount (pos 6)) ∷ [];
  suggested_fee = fee_amount (pos 6);
}

suggests :
    construction_metadata sample_packages
      (Reply.result zero_status)
      config
      ask_account
      (some mainnet)
      sample_options
      nothing_appended
    ≡ ok (response suggestion, nothing_appended)
unfolding construction_metadata guard_online validate_network_identifier find_key
    handle_theta_rpc_response suggest_by_type suggest_send suggest_fee tx_code
suggests = refl

construction_metadata-SignerHas_example :
    (n : ℕ) × SignerHas sample_packages ask_account sample_options n
    × (find_key "sequence" suggestion.metadata ≡ some (Entry.number ((n + 1) % u64_mod)))
construction_metadata-SignerHas_example =
    construction_metadata-SignerHas sample_packages (Reply.result zero_status) config ask_account
      (some mainnet) sample_options suggestion nothing_appended nothing_appended suggests
