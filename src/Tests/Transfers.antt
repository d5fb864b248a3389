-- ===== src/Tests/Transfers.antt =====
-- Coinbase, send and contract transactions, parsed.
use theta_rosetta_rpc_adapto.Prelude.{
  ◌≡◌, ◌≢◌, ◌↔◌, ◌⊎◌, refl, inr, Option, none, some, List, [], ◌∷◌, String, length, All, true,
  false,
}
use theta_rosetta_rpc_adapto.Prelude.Int.{pos, neg, ◌+ℤ◌, ◌-ℤ◌}
use theta_rosetta_rpc_adapto.Go.{ok}
use theta_rosetta_rpc_adapto.Names.{TxType}
use theta_rosetta_rpc_adapto.Wire.{
  CoinbaseTx, SendTx, SmartContractTx, BalanceChange, Metadata, Operation,
}
use theta_rosetta_rpc_adapto.Parse.Transfers.{parse_send_tx}
use theta_rosetta_rpc_adapto.Parse.Contracts.{scale, parse_smart_contract_tx}
use theta_rosetta_rpc_adapto.Parse.Sequence.ContractOrder.{HasDelta}
use theta_rosetta_rpc_adapto.Parse.Balance.{net, or_none}
use theta_rosetta_rpc_adapto.Parse.Balance.SendBalance.{
  total, theta_in, tfuel_in, theta_out, tfuel_out, parse_send_tx-net,
  parse_send_tx-net_balanced_iff,
}
use theta_rosetta_rpc_adapto.Parse.Balance.ContractBalance.{effect, parse_smart_contract_tx-net}
use theta_rosetta_rpc_adapto.Tests.{sample_theta, coins_of, no_coins, input_of, output_of}

abbrev valid : Option String
valid = some "valid"

abbrev coinbase : CoinbaseTx
coinbase = record {
  proposer = input_of 1 no_coins;
  outputs = output_of 1 (coins_of 0 48) ∷ output_of 2 (coins_of 0 12) ∷ [];
  block_height = 100;
}

-- Two inputs and one output; the fee is 3.
abbrev two_inputs : SendTx
two_inputs = record {
  fee = coins_of 0 3;
  inputs = input_of 1 (coins_of 5 10) ∷ input_of 2 (coins_of 0 10) ∷ [];
  outputs = output_of 3 (coins_of 5 17) ∷ [];
}

parse_send_tx-net_example :
    (r : Metadata × List Operation) × (parse_send_tx sample_theta valid two_inputs TxType.send_tx
      ≡ ok r)
    × (net "TFUEL" r.1 +ℤ total tfuel_in two_inputs.inputs +ℤ pos 3
        ≡ total tfuel_out two_inputs.outputs +ℤ scale (length two_inputs.inputs) (pos 3))
    × (net "THETA" r.1 +ℤ total theta_in two_inputs.inputs ≡ total theta_out two_inputs.outputs)
parse_send_tx-net_example =
    parse_send_tx-net sample_theta valid two_inputs TxType.send_tx (pos 3) refl

parse_send_tx-net_balanced_iff_example :
    (r : Metadata × List Operation) × (parse_send_tx sample_theta valid two_inputs TxType.send_tx
      ≡ ok r)
    × ((net "TFUEL" r.1 ≡ neg (pos 3)) ↔ (length two_inputs.inputs ≡ 1) ⊎ (pos 3 ≡ pos 0))
unfolding ◌+ℤ◌
parse_send_tx-net_balanced_iff_example =
    parse_send_tx-net_balanced_iff sample_theta valid two_inputs TxType.send_tx (pos 3) refl refl

abbrev call : SmartContractTx
call = record {
  from = input_of 1 (coins_of 0 9);
  to = output_of 2 no_coins;
  gas_limit = 100;
  gas_price = some (pos 2);
  payload = 96 ∷ [];
}

abbrev call_changes : List BalanceChange
call_changes =
    record { address = 1; token_type = 1; is_negative = true; delta = some (pos 9) }
    ∷ record { address = 2; token_type = 1; is_negative = false; delta = some (pos 9) }
    ∷ []

call_changes_have_deltas : All HasDelta call_changes
call_changes_have_deltas = (λ p q. absurd (cc q), (λ p q. absurd (cc q), tt))

priced : call.gas_price ≢ none
priced h = absurd (cc h)

parse_smart_contract_tx-net_example :
    (r : Metadata × List Operation) × (parse_smart_contract_tx sample_theta valid call
        TxType.smart_contract_tx 21
        (some call_changes)
      ≡ ok r)
    × (net "THETA" r.1 ≡ total (effect 0) call_changes)
    × (net "TFUEL" r.1 ≡ total (effect 1) call_changes -ℤ scale 21 (or_none call.gas_price))
parse_smart_contract_tx-net_example =
    parse_smart_contract_tx-net sample_theta valid call TxType.smart_contract_tx 21 call_changes
      call_changes_have_deltas (inr priced)
