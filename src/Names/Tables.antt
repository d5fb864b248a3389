-- ===== src/Names/Tables.antt =====
-- The tables of names against the constants that index them.
use theta_rosetta_rpc_adapto.Prelude.{
  ℕ, zero, suc, ◌+◌, ◌<◌, ◌≤◌, ◌≡◌, refl, true, false, some, String, List, [], ◌∷◌, length, ◌=ˢ◌,
  ◌↔◌, arith, eq_iff,
}
use theta_rosetta_rpc_adapto.Go.{ok, panic, index}
use theta_rosetta_rpc_adapto.Names.{
  TxType, tx_code, tx_types, tx_type_string, TxOpType, tx_op_code, tx_op_names, tx_op_types,
  tx_op_type_string, get_tx_op_type, is_supported_construction_type,
}

-- The names that are printed and those that are looked up are two lists: every operation type's
-- byte is inside both, they hold the same name there, and that name is supported by the
-- construction endpoints and reads back as the same byte.
pub get_tx_op_type-tx_op_type_string :
    (t : TxOpType)
    → (index tx_op_names (tx_op_code t) ≡ ok (tx_op_type_string t))
      × (index tx_op_types (tx_op_code t) ≡ ok (tx_op_type_string t))
      × (get_tx_op_type (tx_op_type_string t) ≡ some (tx_op_code t))
      × (is_supported_construction_type (tx_op_type_string t) ≡ true)
unfolding get_tx_op_type tx_op_type_string tx_op_code is_supported_construction_type index
get_tx_op_type-tx_op_type_string TxOpType.coinbase_tx_proposer = (refl, refl, refl, refl)
get_tx_op_type-tx_op_type_string _ = (refl, refl, refl, refl)

-- The name of each transaction constant, as its declaration spells it.
abbrev pub declared_name : TxType → String
declared_name TxType.coinbase_tx = "CoinbaseTx"
declared_name TxType.slash_tx = "SlashTx"
declared_name TxType.send_tx = "SendTx"
declared_name TxType.reserve_fund_tx = "ReserveFundTx"
declared_name TxType.release_fund_tx = "ReleaseFundTx"
declared_name TxType.service_payment_tx = "ServicePaymentTx"
declared_name TxType.split_rule_tx = "SplitRuleTx"
declared_name TxType.smart_contract_tx = "SmartContractTx"
declared_name TxType.deposit_stake_tx = "DepositStakeTx"
declared_name TxType.withdraw_stake_tx = "WithdrawStakeTx"
declared_name TxType.deposit_stake_v2_tx = "DepositStakeV2Tx"
declared_name TxType.stake_reward_distribution_tx = "StakeRewardDistributionTx"
declared_name (TxType.other_tx n) = "unknown"

index-past {ℓ} : {A : Type ℓ} (xs : List A) (n : ℕ) → length xs ≤ n → index xs n ≡ panic
unfolding index
index-past [] n h = refl
index-past (x ∷ xs) zero h = absurd (omega arith)
index-past (x ∷ xs) (suc n) h = index-past xs n (omega arith)

-- A byte past the array is a panic, `StakeRewardDistributionTx` being the first.
pub tx_type_string-eq-panic_iff : (t : TxType) → (tx_type_string t ≡ panic) ↔ (11 ≤ tx_code t)
unfolding tx_type_string
tx_type_string-eq-panic_iff TxType.stake_reward_distribution_tx = (λ h. omega arith, λ h. refl)
tx_type_string-eq-panic_iff (TxType.other_tx n) =
    (λ h. omega arith, λ h. index-past tx_types (12 + n) (omega arith))
tx_type_string-eq-panic_iff _ = (λ h. absurd (cc h), λ h. absurd (omega arith))

-- Two texts that are tested as different are no equal results.
differ : {a b : String} → (a =ˢ b) ≡ false → ok a ≡ ok b → ⊥
differ {a} {b} d h = ground (arith, eq_iff a b)

-- `TxType.String` prints a constant's own name for the first four constants and for no other byte:
-- "ReleaseFundTx" is missing from the array.
pub tx_type_string-eq-declared_name_iff :
    (t : TxType) → (tx_type_string t ≡ ok (declared_name t)) ↔ (tx_code t < 4)
unfolding tx_type_string
tx_type_string-eq-declared_name_iff TxType.coinbase_tx = (λ h. omega arith, λ h. refl)
tx_type_string-eq-declared_name_iff TxType.slash_tx = (λ h. omega arith, λ h. refl)
tx_type_string-eq-declared_name_iff TxType.send_tx = (λ h. omega arith, λ h. refl)
tx_type_string-eq-declared_name_iff TxType.reserve_fund_tx = (λ h. omega arith, λ h. refl)
tx_type_string-eq-declared_name_iff TxType.stake_reward_distribution_tx =
    (λ h. absurd (cc h), λ h. absurd (omega arith))
tx_type_string-eq-declared_name_iff (TxType.other_tx n) = (
  λ h.
      let p : index tx_types (12 + n) ≡ panic = index-past tx_types (12 + n) (omega arith) in
      absurd (cc (h, p)),
  λ h. absurd (omega arith),
)
tx_type_string-eq-declared_name_iff _ = (λ h. absurd (differ refl h), λ h. absurd (omega arith))
