-- ===== src/Tests/Funds.antt =====
-- Fund, payment and stake transactions, parsed.
use theta_rosetta_rpc_adapto.Prelude.{◌≡◌, refl, ◌↔◌, Option, none, some, List, [], ◌∷◌, String}
use theta_rosetta_rpc_adapto.Prelude.Int.{pos, neg, ◌+ℤ◌}
use theta_rosetta_rpc_adapto.Go.{ok}
use theta_rosetta_rpc_adapto.Names.{TxType}
use theta_rosetta_rpc_adapto.Wire.{
  ReserveFundTx, ReleaseFundTx, ServicePaymentTx, DepositStakeTx, WithdrawStakeTx,
  StakeRewardDistributionTx, Metadata, Operation,
}
use theta_rosetta_rpc_adapto.Parse.Funds.{parse_reserve_fund_tx, parse_release_fund_tx}
use theta_rosetta_rpc_adapto.Parse.Stakes.{
  parse_deposit_stake_tx, parse_stake_reward_distribution_tx,
}
use theta_rosetta_rpc_adapto.Parse.Sequence.{Yields, HasCoins}
use theta_rosetta_rpc_adapto.Parse.Sequence.FundOrder.{
  parse_reserve_fund_tx-Yields_iff, parse_release_fund_tx-Yields_iff,
}
use theta_rosetta_rpc_adapto.Parse.Sequence.StakeOrder.{
  parse_stake_reward_distribution_tx-Yields_iff,
}
use theta_rosetta_rpc_adapto.Parse.Balance.{net}
use theta_rosetta_rpc_adapto.Parse.Balance.FundBalance.{parse_deposit_stake_tx-net}
use theta_rosetta_rpc_adapto.Tests.{
  sample_theta, coins_of, no_coins, input_of, output_of, withdrawal,
}

abbrev valid : Option String
valid = some "valid"

abbrev reserve : ReserveFundTx
reserve = record {
  fee = coins_of 0 2;
  source = input_of 1 (coins_of 0 100);
  collateral = coins_of 0 101;
  resource_ids = "r" ∷ [];
  duration = 30;
}

parse_reserve_fund_tx-Yields_iff_example :
    Yields valid (parse_reserve_fund_tx sample_theta valid reserve TxType.reserve_fund_tx)
    ↔ HasCoins reserve.source.coins
parse_reserve_fund_tx-Yields_iff_example =
    parse_reserve_fund_tx-Yields_iff sample_theta valid reserve TxType.reserve_fund_tx (pos 2) refl

abbrev release : ReleaseFundTx
release = record { fee = coins_of 0 2; source = input_of 1 no_coins; reserve_sequence = 1 }

parse_release_fund_tx-Yields_iff_example :
    Yields valid (parse_release_fund_tx sample_theta valid release TxType.release_fund_tx)
    ↔ HasCoins release.source.coins
parse_release_fund_tx-Yields_iff_example =
    parse_release_fund_tx-Yields_iff sample_theta valid release TxType.release_fund_tx (pos 2) refl

abbrev payment : ServicePaymentTx
payment = record {
  fee = coins_of 0 1;
  source = input_of 1 (coins_of 0 50);
  target = input_of 2 no_coins;
  payment_sequence = 1;
  reserve_sequence = 1;
  resource_id = "r";
}

abbrev deposit : DepositStakeTx
deposit = record {
  fee = coins_of 0 10;
  source = input_of 1 (coins_of 1000 0);
  holder = output_of 2 no_coins;
  purpose = 0;
  bls_pubkey = none;
  bls_pop = none;
  holder_sig = none;
}

parse_deposit_stake_tx-net_example :
    (r : Metadata × List Operation) × (parse_deposit_stake_tx sample_theta valid deposit
        TxType.deposit_stake_v2_tx
      ≡ ok r)
    × (net "THETA" r.1 ≡ neg (pos 1000))
    × (net "TFUEL" r.1 ≡ neg (pos 0 +ℤ pos 10))
parse_deposit_stake_tx-net_example =
    parse_deposit_stake_tx-net sample_theta valid deposit TxType.deposit_stake_v2_tx (pos 10) refl

abbrev comes_back : WithdrawStakeTx
comes_back = record withdrawal { source = input_of 1 (coins_of 1000 0) }

abbrev reward : StakeRewardDistributionTx
reward = record {
  fee = coins_of 0 10;
  holder = input_of 1 no_coins;
  beneficiary = output_of 2 (coins_of 0 0);
  split_basis_point = 500;
}

parse_stake_reward_distribution_tx-Yields_iff_example :
    Yields valid (
      parse_stake_reward_distribution_tx sample_theta valid reward
        TxType.stake_reward_distribution_tx)
    ↔ (¬ HasCoins reward.beneficiary.coins)
parse_stake_reward_distribution_tx-Yields_iff_example =
    parse_stake_reward_distribution_tx-Yields_iff sample_theta valid reward
      TxType.stake_reward_distribution_tx (pos 10) refl
