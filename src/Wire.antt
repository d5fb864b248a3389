-- ===== src/Wire.antt =====
-- The values that pass through common/utils.go: the fields that it reads of the ledger's
-- transactions (package ledger/types of the Theta node), and the Rosetta transactions that it
-- builds. A `*big.Int` is `Option ℤ`, an address or hash the number that its bytes spell.
use theta_rosetta_rpc_adapto.Prelude.{ℕ, String, Bool, Option, List}
use theta_rosetta_rpc_adapto.Prelude.Int.{ℤ}
use theta_rosetta_rpc_adapto.Digits.{Bytes}
use theta_rosetta_rpc_adapto.Names.{Currency, TxType}

abbrev pub Address : Type 0
Address = ℕ

abbrev pub Hash : Type 0
Hash = ℕ

pub record Coins : Type 0 where
  pub theta_wei : Option ℤ
  pub tfuel_wei : Option ℤ

pub record TxInput : Type 0 where
  pub address : Address
  pub coins : Coins
  pub sequence : ℕ
  pub signature : Option Bytes

pub record TxOutput : Type 0 where
  pub address : Address
  pub coins : Coins

pub record CoinbaseTx : Type 0 where
  pub proposer : TxInput
  pub outputs : List TxOutput
  pub block_height : ℕ

pub record SlashTx : Type 0 where
  pub proposer : TxInput
  pub slashed_address : Address
  pub reserve_sequence : ℕ
  pub slash_proof : Bytes

pub record SendTx : Type 0 where
  pub fee : Coins
  pub inputs : List TxInput
  pub outputs : List TxOutput

pub record ReserveFundTx : Type 0 where
  pub fee : Coins
  pub source : TxInput
  pub collateral : Coins
  pub resource_ids : List String
  pub duration : ℕ

pub record ReleaseFundTx : Type 0 where
  pub fee : Coins
  pub source : TxInput
  pub reserve_sequence : ℕ

pub record ServicePaymentTx : Type 0 where
  pub fee : Coins
  pub source : TxInput
  pub target : TxInput
  pub payment_sequence : ℕ
  pub reserve_sequence : ℕ
  pub resource_id : String

pub record SplitRuleTx : Type 0 where
  pub fee : Coins
  pub resource_id : String
  pub initiator : TxInput
  pub splits : List (Address × ℕ)
  pub duration : ℕ

pub record SmartContractTx : Type 0 where
  pub from : TxInput
  pub to : TxOutput
  pub gas_limit : ℕ
  pub gas_price : Option ℤ
  pub payload : Bytes

-- A `DepositStakeTxV2`.
pub record DepositStakeTx : Type 0 where
  pub fee : Coins
  pub source : TxInput
  pub holder : TxOutput
  pub purpose : ℕ
  pub bls_pubkey : Option Bytes
  pub bls_pop : Option Bytes
  pub holder_sig : Option Bytes

pub record WithdrawStakeTx : Type 0 where
  pub fee : Coins
  pub source : TxInput
  pub holder : TxOutput
  pub purpose : ℕ

pub record StakeRewardDistributionTx : Type 0 where
  pub fee : Coins
  pub holder : TxInput
  pub beneficiary : TxOutput
  pub split_basis_point : ℕ

-- An entry of the node's record of a contract call's balance changes.
pub record BalanceChange : Type 0 where
  pub address : Address
  pub token_type : ℕ
  pub is_negative : Bool
  pub delta : Option ℤ

-- What an `interface{}` of a metadata map holds.
pub data Value : Type 0 where
  tx_type : TxType → Value
  hash : Hash → Value
  number : ℕ → Value
  text : String → Value
  texts : List String → Value
  bytes : Bytes → Value
  coins : Coins → Value
  integer : Option ℤ → Value
  shares : List (Address × ℕ) → Value

abbrev pub Metadata : Type 0
Metadata = List (String × Value)

pub record Amount : Type 0 where
  pub value : Bytes
  pub currency : Currency

pub record Operation : Type 0 where
  pub identifier : ℤ
  pub related : List ℤ
  pub op_type : String
  pub status : Option String
  pub account : String
  pub amount : Amount
  pub metadata : Metadata

pub record Transaction : Type 0 where
  pub hash : String
  pub metadata : Metadata
  pub operations : List Operation

-- What the code takes from the Theta node's packages and does not define: the texts of addresses and
-- hashes, the bytes of a signature's JSON (its error is dropped), Keccak-256 of a text, and three
-- constants for a stake's purpose and one for the height at which a stake is returned.
pub record Theta : Type 0 where
  pub address_string : Address → String
  pub address_hex : Address → String
  pub hash_string : Hash → String
  pub hash_hex : Hash → String
  pub keccak256 : String → Hash
  pub marshal_signature : Option Bytes → Bytes
  pub stake_for_validator : ℕ
  pub stake_for_guardian : ℕ
  pub stake_for_elite_edge_node : ℕ
  pub return_locking_period : ℕ
