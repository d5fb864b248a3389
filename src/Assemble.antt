-- ===== src/Assemble.antt =====
-- `AssembleTx` of common/utils.go: from operations and metadata back to a transaction of the ledger.
pub mod Coinbase
pub mod Dispatch
pub mod Deposit
use theta_rosetta_rpc_adapto.Prelude.{
  ℕ, zero, suc, ◌%◌, String, Bool, Option, none, some, List, [], ◌∷◌, ◌++◌, map, ◌==◌, ◌||◌, ◌=ˢ◌,
  if◌then◌else◌,
}
use theta_rosetta_rpc_adapto.Prelude.Int.{ℤ, pos}
use theta_rosetta_rpc_adapto.Digits.{Bytes, set_string}
use theta_rosetta_rpc_adapto.Go.{Go, ok, panic, index, deref, ◌>>=◌}
use theta_rosetta_rpc_adapto.Names.{
  TxType, tx_code, TxOpType, tx_op_type_string, Currency, get_theta_currency, get_tfuel_currency,
}
use theta_rosetta_rpc_adapto.Wire.{
  Address, Coins, TxInput, TxOutput, CoinbaseTx, SlashTx, SendTx, ReserveFundTx, ReleaseFundTx,
  ServicePaymentTx, SplitRuleTx, SmartContractTx, DepositStakeTx, WithdrawStakeTx,
  StakeRewardDistributionTx, Operation,
}
use theta_rosetta_rpc_adapto.Handler.{Fallible, fine, error}
use theta_rosetta_rpc_adapto.Construction.{find_key}

-- A transaction of any type; fields that are not set are zero.
pub data AnyTx : Type 0 where
  coinbase : CoinbaseTx → AnyTx
  slash : SlashTx → AnyTx
  send : SendTx → AnyTx
  reserve_fund : ReserveFundTx → AnyTx
  release_fund : ReleaseFundTx → AnyTx
  service_payment : ServicePaymentTx → AnyTx
  split_rule : SplitRuleTx → AnyTx
  smart_contract : SmartContractTx → AnyTx
  deposit_stake : DepositStakeTx → AnyTx
  withdraw_stake : WithdrawStakeTx → AnyTx
  reward_distribution : StakeRewardDistributionTx → AnyTx

-- A value of the metadata, as `interface{}`, by the types that are asserted; a key or a signature of
-- BLS is the bytes that it stands for.
pub data Item (Float : Type 0) : Type 0 where
  float : Float → Item Float
  some_coins : Coins → Item Float
  text : String → Item Float
  texts : List String → Item Float
  splits : List (Address × ℕ) → Item Float
  bytes : Bytes → Item Float
  bls_pub_key : Bytes → Item Float
  bls_signature : Bytes → Item Float
  signature : Bytes → Item Float
  another : ℕ → Item Float

-- What the code calls: the conversions of `float64`, `HexToAddress`, `strings.EqualFold`, the order in
-- which Go ranges over a map, and what `SetString` leaves behind where it fails.
pub record Library : Type 1 where
  pub Float : Type 0
  pub float_u64 : Float → ℕ
  pub float_i64 : Float → ℤ
  pub float_byte : Float → ℕ
  pub hex_to_address : String → Address
  pub equal_fold : String → String → Bool
  pub arrange : List (String × List Operation) → List (String × List Operation)
  pub undefined : Bytes → ℤ

-- The type assertions; a missing key is a nil interface, of which each panics.
module _ {Float : Type 0} where
  abbrev pub as_float : Option (Item Float) → Go Float
  as_float (some (Item.float f)) = ok f
  as_float _ = panic

  abbrev pub as_coins : Option (Item Float) → Go Coins
  as_coins (some (Item.some_coins c)) = ok c
  as_coins _ = panic

  abbrev pub as_text : Option (Item Float) → Go String
  as_text (some (Item.text t)) = ok t
  as_text _ = panic

  abbrev pub as_texts : Option (Item Float) → Go (List String)
  as_texts (some (Item.texts ts)) = ok ts
  as_texts _ = panic

  abbrev pub as_splits : Option (Item Float) → Go (List (Address × ℕ))
  as_splits (some (Item.splits s)) = ok s
  as_splits _ = panic

  abbrev pub as_bytes : Option (Item Float) → Go Bytes
  as_bytes (some (Item.bytes b)) = ok b
  as_bytes _ = panic

  -- An entry that may be missing.
  abbrev pub optional_pub_key : Option (Item Float) → Go (Option Bytes)
  optional_pub_key none = ok none
  optional_pub_key (some (Item.bls_pub_key b)) = ok (some b)
  optional_pub_key _ = panic

  abbrev pub optional_bls : Option (Item Float) → Go (Option Bytes)
  optional_bls none = ok none
  optional_bls (some (Item.bls_signature b)) = ok (some b)
  optional_bls _ = panic

  abbrev pub optional_signature : Option (Item Float) → Go (Option Bytes)
  optional_signature none = ok none
  optional_signature (some (Item.signature b)) = ok (some b)
  optional_signature _ = panic

abbrev pub or_else : Option ℤ → ℤ → ℤ
or_else (some z) u = z
or_else none u = u

abbrev pub tfuel_only : ℤ → Coins
tfuel_only z = record { theta_wei = none; tfuel_wei = some z }

abbrev pub no_coins : Coins
no_coins = record { theta_wei = none; tfuel_wei = none }

-- `m[addr] = append(m[addr], op)`, keys in the order of their first writes.
unfoldable pub append_at :
    String → Operation → List (String × List Operation) → List (String × List Operation)
append_at addr op [] = (addr, op ∷ []) ∷ []
append_at addr op ((key, ops) ∷ m) =
    if key =ˢ addr then (key, ops ++ op ∷ []) ∷ m else (key, ops) ∷ append_at addr op m

-- The operations of one type, by account.
unfoldable pub group_by_account :
    String → List Operation → List (String × List Operation) → List (String × List Operation)
unfolding append_at
group_by_account type [] m = m
group_by_account type (op ∷ ops) m =
    group_by_account type ops (if op.op_type =ˢ type then append_at op.account op m else m)

module _ (library : Library) where
  -- A text as an amount.
  unfoldable pub amount_of : Operation → ℤ
  amount_of op = or_else (set_string op.amount.value) (library.undefined op.amount.value)

  abbrev pub amount_at : List Operation → ℕ → Go ℤ
  amount_at ops i = index ops i >>= (λ op. ok (amount_of op))

  abbrev pub address_at : List Operation → ℕ → Go Address
  address_at ops i = index ops i >>= (λ op. ok (library.hex_to_address op.account))

  abbrev pub input_with : Address → Coins → ℕ → TxInput
  input_with address coins sequence = record {
    address = address;
    coins = coins;
    sequence = sequence;
    signature = none;
  }

  -- The first operation's account with its amount in TFuel.
  abbrev pub first_input : List Operation → ℕ → Go TxInput
  first_input ops sequence = do
    amount ← amount_at ops 0
    address ← address_at ops 0
    ok (input_with address (tfuel_only amount) sequence)

  -- Theta and TFuel of two operations in a row.
  abbrev pub coins_at : List Operation → ℕ → ℕ → Go Coins
  coins_at ops i j = do
    theta ← amount_at ops i
    tfuel ← amount_at ops j
    ok (record { theta_wei = some theta; tfuel_wei = some tfuel })

  abbrev pub output_for : Operation → TxOutput
  output_for op = record {
    address = library.hex_to_address op.account;
    coins = tfuel_only (amount_of op);
  }

  abbrev pub tail_of : List Operation → List Operation
  tail_of [] = []
  tail_of (op ∷ ops) = ops

  unfoldable pub assemble_coinbase : List Operation → ℕ → Go AnyTx
  unfolding amount_of
  assemble_coinbase ops sequence = do
    proposer ← first_input ops sequence
    ok (
        coinbase (record {
          proposer = proposer;
          outputs = map output_for (tail_of ops);
          block_height = 0;
        }))

  unfoldable pub assemble_slash : List Operation → ℕ → Go AnyTx
  unfolding amount_of
  assemble_slash ops sequence = do
    proposer ← first_input ops sequence
    ok (
        slash (record {
          proposer = proposer;
          slashed_address = 0;
          reserve_sequence = 0;
          slash_proof = [];
        }))

  -- The last amount of each currency.
  unfoldable pub add_coins : List Operation → Coins → Coins
  unfolding amount_of
  add_coins [] coins = coins
  add_coins (op ∷ ops) coins = add_coins ops (
      if library.equal_fold op.amount.currency.symbol get_theta_currency.symbol
      then record coins { theta_wei = some (amount_of op) }
      else if library.equal_fold op.amount.currency.symbol get_tfuel_currency.symbol
      then record coins { tfuel_wei = some (amount_of op) }
      else coins)

  abbrev pub input_for : ℕ → String × List Operation → TxInput
  input_for sequence (addr, ops) =
      input_with (library.hex_to_address addr) (add_coins ops no_coins) sequence

  abbrev pub sent_output : String × List Operation → TxOutput
  sent_output (addr, ops) = record {
    address = library.hex_to_address addr;
    coins = add_coins ops no_coins;
  }

  unfoldable pub assemble_send_tx : List Operation → Coins → ℕ → Go AnyTx
  unfolding group_by_account add_coins
  assemble_send_tx ops fee sequence = ok (
      send (record {
        fee = fee;
        inputs =
            map (input_for sequence) (
              library.arrange (group_by_account (tx_op_type_string TxOpType.send_tx_input) ops []));
        outputs =
            map sent_output (
              library.arrange
                (group_by_account (tx_op_type_string TxOpType.send_tx_output) ops []));
      }))
