-- ===== src/Tests/Assembled.antt =====
-- A coinbase transaction that is assembled again, and a deposit that is not.
use theta_rosetta_rpc_adapto.Prelude.{
  ℕ, zero, suc, ◌≡◌, refl, ap, String, none, some, List, [], ◌∷◌, map, length, ◌%◌, inl, ◌=ˢ◌,
}
use theta_rosetta_rpc_adapto.Prelude.Int.{pos}
use theta_rosetta_rpc_adapto.Hex.{codes}
use theta_rosetta_rpc_adapto.Go.{ok, panic}
use theta_rosetta_rpc_adapto.Names.{TxType, tx_code}
use theta_rosetta_rpc_adapto.Wire.{CoinbaseTx, DepositStakeTx, Metadata, Operation, Theta}
use theta_rosetta_rpc_adapto.Parse.Transfers.{parse_coinbase_tx}
use theta_rosetta_rpc_adapto.Parse.Stakes.{parse_deposit_stake_tx}
use theta_rosetta_rpc_adapto.Handler.{fine}
use theta_rosetta_rpc_adapto.Construction.{find_key}
use theta_rosetta_rpc_adapto.Assemble.{AnyTx, Item, Library, input_with, tfuel_only}
use theta_rosetta_rpc_adapto.Assemble.Dispatch.{assemble_tx}
use theta_rosetta_rpc_adapto.Assemble.Coinbase.{bare, assemble_tx-parse_coinbase_tx}
use theta_rosetta_rpc_adapto.Assemble.Deposit.{assemble_tx-eq-panic}
use theta_rosetta_rpc_adapto.Tests.{sample_theta, coins_of, no_coins, input_of, output_of}

-- An address as that many marks.
abbrev tally : ℕ → String
tally zero = ""
tally (suc n) = String.◌∷◌ "x" (tally n)

length-tally : (n : ℕ) → length (codes (tally n)) ≡ n
length-tally zero = refl
length-tally (suc n) = ap suc (length-tally n)

abbrev tally_theta : Theta
tally_theta = record sample_theta { address_string = tally }

abbrev library : Library
library = record {
  Float = ℕ;
  float_u64 = λ n. n;
  float_i64 = pos;
  float_byte = λ n. n % 256;
  hex_to_address = λ s. length (codes s);
  equal_fold = λ a b. a =ˢ b;
  arrange = λ m. m;
  undefined = λ t. pos 0;
}

abbrev minted : CoinbaseTx
minted = record {
  proposer = input_of 7 no_coins;
  outputs = output_of 8 (coins_of 0 50) ∷ output_of 9 (coins_of 0 60) ∷ [];
  block_height = 100;
}

abbrev meta_of : ℕ → List (String × Item ℕ)
meta_of code = ("type", Item.float code) ∷ ("sequence", Item.float 5) ∷ ("fee", Item.float 1) ∷ []

found :
    (code : ℕ)
    → (find_key "type" (meta_of code) ≡ some (Item.float code))
      × (find_key "sequence" (meta_of code) ≡ some (Item.float 5))
      × (find_key "fee" (meta_of code) ≡ some (Item.float 1))
unfolding find_key
found code = (refl, refl, refl)

codes_of : (0 ≡ tx_code TxType.coinbase_tx) × (8 ≡ tx_code TxType.deposit_stake_tx)
unfolding tx_code
codes_of = (refl, refl)

assemble_tx-parse_coinbase_tx_example :
    assemble_tx library (parse_coinbase_tx tally_theta none minted TxType.coinbase_tx).1 (meta_of 0)
    ≡ ok (
        fine (
          AnyTx.coinbase (record {
            proposer = input_with library 7 (tfuel_only (pos 0)) 5;
            outputs = map bare minted.outputs;
            block_height = 0;
          })))
assemble_tx-parse_coinbase_tx_example =
    assemble_tx-parse_coinbase_tx library tally_theta none TxType.coinbase_tx minted (meta_of 0) 0 5
      1 length-tally ((pos 50, refl), ((pos 60, refl), tt)) (found 0).0 codes_of.0 (found 0).1
      (found 0).2

abbrev staked : DepositStakeTx
staked = record {
  fee = coins_of 0 1;
  source = input_of 7 (coins_of 10 0);
  holder = output_of 8 no_coins;
  purpose = 0;
  bls_pubkey = none;
  bls_pop = none;
  holder_sig = none;
}

assemble_tx-eq-panic_example :
    (parsed : Metadata) × (ops : List Operation) × (parse_deposit_stake_tx tally_theta none staked
        TxType.deposit_stake_tx
      ≡ ok (parsed, ops))
    × (assemble_tx library ops (meta_of 8) ≡ panic)
assemble_tx-eq-panic_example =
    assemble_tx-eq-panic library tally_theta none staked TxType.deposit_stake_tx (pos 1) (meta_of 8)
      8 5 1 refl (found 8).0 (inl codes_of.1) (found 8).1 (found 8).2
