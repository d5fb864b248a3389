-- ===== src/Tests.antt =====
-- Sample values: a chain's constants, coins, inputs, a store and a database. The modules below run
-- the development on them.
mod Stored
mod Transfers
mod Funds
mod Samples
mod Stakes
mod Returns
mod Blocks
mod Mempool
mod Codec
mod Constructions
mod Accounts
mod Assembled
use native.Mathlib.Decide.{ℕ_discrete}
use mathlib.Core.List.{List-discrete}
use theta_rosetta_rpc_adapto.Prelude.{
  ℕ, ◌≡◌, ◌≢◌, refl, String, Bool, true, false, Option, none, some, List, [], ◌∷◌, ◌==◌,
  if◌then◌else◌, ap,
}
use theta_rosetta_rpc_adapto.Prelude.Int.{ℤ, pos}
use theta_rosetta_rpc_adapto.Digits.{Bytes}
use theta_rosetta_rpc_adapto.Wire.{Address, Hash, Coins, TxInput, TxOutput, WithdrawStakeTx, Theta}
use theta_rosetta_rpc_adapto.Store.Interface.{Store}
use theta_rosetta_rpc_adapto.StakeService.{ReturnStakeTxs}

abbrev hex_name : ℕ → String
hex_name n = if n == 1 then "0x01" else if n == 2 then "0x02" else "0x03"

abbrev sample_theta : Theta
sample_theta = record {
  address_string = hex_name;
  address_hex = hex_name;
  hash_string = hex_name;
  hash_hex = hex_name;
  keccak256 = λ s. 3;
  marshal_signature = λ s. 110 ∷ 117 ∷ 108 ∷ 108 ∷ [];
  stake_for_validator = 0;
  stake_for_guardian = 1;
  stake_for_elite_edge_node = 2;
  return_locking_period = 28800;
}

abbrev coins_of : ℕ → ℕ → Coins
coins_of theta tfuel = record { theta_wei = some (pos theta); tfuel_wei = some (pos tfuel) }

abbrev no_coins : Coins
no_coins = record { theta_wei = none; tfuel_wei = none }

abbrev input_of : Address → Coins → TxInput
input_of a c = record { address = a; coins = c; sequence = 1; signature = none }

abbrev output_of : Address → Coins → TxOutput
output_of a c = record { address = a; coins = c }

-- A withdrawal from a validator.
abbrev withdrawal : WithdrawStakeTx
withdrawal = record {
  fee = coins_of 0 5;
  source = input_of 1 no_coins;
  holder = output_of 2 no_coins;
  purpose = 0;
}

-- The choice by a decision.
unfoldable choose : {P A : Type 0} → Dec P → A → A → A
choose (yes p) a b = a
choose (no n) a b = b

choose-yes : {P A : Type 0} (d : Dec P) (a b : A) → P → choose d a b ≡ a
unfolding choose
choose-yes (yes p) a b q = refl
choose-yes (no n) a b q = absurd (n q)

choose-no : {P A : Type 0} (d : Dec P) (a b : A) → ¬ P → choose d a b ≡ b
unfolding choose
choose-no (yes p) a b m = absurd (m p)
choose-no (no n) a b m = refl

abbrev table_put : {A : Type 0} → Bytes → Option A → (Bytes → Option A) → Bytes → Option A
table_put k v s j = choose (List-discrete ℕ_discrete k j) v (s j)

-- A table of returns in memory.
abbrev table_store : Store ReturnStakeTxs
table_store = record {
  State = Bytes → Option ReturnStakeTxs;
  get = λ k s. s k;
  put = λ k v s. (true, table_put k (some v) s);
  canon = λ v. v;
  get-put_self = λ k v s h. choose-yes (List-discrete ℕ_discrete k k) (some v) (s k) refl;
  get-put_ne = λ k j v s n. choose-no (List-discrete ℕ_discrete k j) (some v) (s j) n;
}

abbrev empty_table : {A : Type 0} → Bytes → Option A
empty_table k = none
