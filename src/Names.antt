-- ===== src/Names.antt =====
-- The constants and names of common/types.go: transaction types, operation types, block statuses
-- and currencies.
pub mod Tables
use theta_rosetta_rpc_adapto.Prelude.{
  ℕ, zero, suc, ◌+◌, String, Bool, true, false, Option, none, some, List, [], ◌∷◌, ◌=ˢ◌,
  if◌then◌else◌,
}
use theta_rosetta_rpc_adapto.Go.{Go, ok, panic, index}

pub record Currency : Type 0 where
  pub symbol : String
  pub decimals : ℕ

abbrev pub chain_name : String
chain_name = "theta"

abbrev pub coin_decimals : ℕ
coin_decimals = 18

abbrev pub get_theta_currency : Currency
get_theta_currency = record { symbol = "THETA"; decimals = coin_decimals }

abbrev pub get_tfuel_currency : Currency
get_tfuel_currency = record { symbol = "TFUEL"; decimals = coin_decimals }

-- A byte: the twelve constants in the order of the source, or any other value.
pub data TxType : Type 0 where
  coinbase_tx slash_tx send_tx reserve_fund_tx release_fund_tx service_payment_tx : TxType
  split_rule_tx smart_contract_tx deposit_stake_tx withdraw_stake_tx : TxType
  deposit_stake_v2_tx stake_reward_distribution_tx : TxType
  other_tx : ℕ → TxType

-- The byte; `other_tx n` is the byte 12 + n.
unfoldable pub tx_code : TxType → ℕ
tx_code coinbase_tx = 0
tx_code slash_tx = 1
tx_code send_tx = 2
tx_code reserve_fund_tx = 3
tx_code release_fund_tx = 4
tx_code service_payment_tx = 5
tx_code split_rule_tx = 6
tx_code smart_contract_tx = 7
tx_code deposit_stake_tx = 8
tx_code withdraw_stake_tx = 9
tx_code deposit_stake_v2_tx = 10
tx_code stake_reward_distribution_tx = 11
tx_code (other_tx n) = 12 + n

-- The array that `TxType.String` indexes.
unfoldable pub tx_types : List String
tx_types =
    "CoinbaseTx" ∷ "SlashTx" ∷ "SendTx" ∷ "ReserveFundTx" ∷ "ServicePaymentTx" ∷ "SplitRuleTx"
    ∷ "SmartContractTx" ∷ "DepositStakeTx" ∷ "WithdrawStakeTx" ∷ "DepositStakeV2Tx"
    ∷ "StakeRewardDistributionTx" ∷ []

unfoldable pub tx_type_string : TxType → Go String
unfolding tx_types tx_code index
tx_type_string t = index tx_types (tx_code t)

pub data TxOpType : Type 0 where
  coinbase_tx_proposer coinbase_tx_output slash_tx_proposer send_tx_input send_tx_output : TxOpType
  reserve_fund_tx_source release_fund_tx_source service_payment_tx_source : TxOpType
  service_payment_tx_target split_rule_tx_initiator smart_contract_tx_from : TxOpType
  smart_contract_tx_to deposit_stake_tx_source deposit_stake_tx_holder : TxOpType
  withdraw_stake_tx_source withdraw_stake_tx_holder : TxOpType
  stake_reward_distribution_tx_holder stake_reward_distribution_tx_beneficiary tx_fee : TxOpType

unfoldable pub tx_op_code : TxOpType → ℕ
tx_op_code coinbase_tx_proposer = 0
tx_op_code coinbase_tx_output = 1
tx_op_code slash_tx_proposer = 2
tx_op_code send_tx_input = 3
tx_op_code send_tx_output = 4
tx_op_code reserve_fund_tx_source = 5
tx_op_code release_fund_tx_source = 6
tx_op_code service_payment_tx_source = 7
tx_op_code service_payment_tx_target = 8
tx_op_code split_rule_tx_initiator = 9
tx_op_code smart_contract_tx_from = 10
tx_op_code smart_contract_tx_to = 11
tx_op_code deposit_stake_tx_source = 12
tx_op_code deposit_stake_tx_holder = 13
tx_op_code withdraw_stake_tx_source = 14
tx_op_code withdraw_stake_tx_holder = 15
tx_op_code stake_reward_distribution_tx_holder = 16
tx_op_code stake_reward_distribution_tx_beneficiary = 17
tx_op_code tx_fee = 18

-- The array that `TxOpType.String` indexes.
unfoldable pub tx_op_names : List String
tx_op_names =
    "CoinbaseTxProposer" ∷ "CoinbaseTxOutput" ∷ "SlashTxProposer" ∷ "SendTxInput" ∷ "SendTxOutput"
    ∷ "ReserveFundTxSource" ∷ "ReleaseFundTxSource" ∷ "ServicePaymentTxSource"
    ∷ "ServicePaymentTxTarget" ∷ "SplitRuleTxInitiator" ∷ "SmartContractTxFrom"
    ∷ "SmartContractTxTo" ∷ "DepositStakeTxSource" ∷ "DepositStakeTxHolder"
    ∷ "WithdrawStakeTxSource" ∷ "WithdrawStakeTxHolder" ∷ "StakeRewardDistributionTxHolder"
    ∷ "StakeRewardDistributionTxBeneficiary" ∷ "TxFee" ∷ []

-- The element of an array of texts; "" stands for the panic past its end, which no operation type
-- meets.
elem_or_empty : List String → ℕ → String
elem_or_empty [] i = ""
elem_or_empty (x ∷ xs) zero = x
elem_or_empty (x ∷ xs) (suc i) = elem_or_empty xs i

-- `TxOpType.String`
unfoldable pub tx_op_type_string : TxOpType → String
unfolding tx_op_names tx_op_code elem_or_empty
tx_op_type_string t = elem_or_empty tx_op_names (tx_op_code t)

-- `TxOpTypes`
unfoldable pub tx_op_types : List String
tx_op_types =
    "CoinbaseTxProposer" ∷ "CoinbaseTxOutput" ∷ "SlashTxProposer" ∷ "SendTxInput" ∷ "SendTxOutput"
    ∷ "ReserveFundTxSource" ∷ "ReleaseFundTxSource" ∷ "ServicePaymentTxSource"
    ∷ "ServicePaymentTxTarget" ∷ "SplitRuleTxInitiator" ∷ "SmartContractTxFrom"
    ∷ "SmartContractTxTo" ∷ "DepositStakeTxSource" ∷ "DepositStakeTxHolder"
    ∷ "WithdrawStakeTxSource" ∷ "WithdrawStakeTxHolder" ∷ "StakeRewardDistributionTxHolder"
    ∷ "StakeRewardDistributionTxBeneficiary" ∷ "TxFee" ∷ []

holds_name : List String → String → Bool
holds_name [] name = false
holds_name (s ∷ ss) name = let rest = holds_name ss name in if name =ˢ s then true else rest

unfoldable pub is_supported_construction_type : String → Bool
unfolding holds_name tx_op_types
is_supported_construction_type name = holds_name tx_op_types name

position_from : ℕ → List String → String → Option ℕ
position_from i [] name = none
position_from i (s ∷ ss) name =
    let rest = position_from (suc i) ss name in if name =ˢ s then some i else rest

-- The byte of a name; `none` is the error "invalid tx op type".
unfoldable pub get_tx_op_type : String → Option ℕ
unfolding position_from tx_op_types
get_tx_op_type name = position_from 0 tx_op_types name

unfoldable pub block_status_names : List String
block_status_names =
    "pending" ∷ "valid" ∷ "invalid" ∷ "committed" ∷ "directly_finalized" ∷ "indirectly_finalized"
    ∷ "trusted" ∷ "disposed" ∷ []

-- `BlockStatus.String` of a byte.
unfoldable pub block_status_string : ℕ → Go String
unfolding block_status_names index
block_status_string s = index block_status_names s
