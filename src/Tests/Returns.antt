-- ===== src/Tests/Returns.antt =====
-- A withdrawal, parsed over a store in memory.
use theta_rosetta_rpc_adapto.Prelude.{◌≡◌, ◌≢◌, refl, none, some, [], inl, ◌↔◌}
use theta_rosetta_rpc_adapto.Prelude.Int.{pos, neg}
use theta_rosetta_rpc_adapto.Digits.{Bytes}
use theta_rosetta_rpc_adapto.Go.{ok, panic}
use theta_rosetta_rpc_adapto.Names.{TxType}
use theta_rosetta_rpc_adapto.StakeService.{
  find_stake, find_in_pairs, get_stake_for_tx, returned, find_holder_stake,
}
use theta_rosetta_rpc_adapto.Transaction.{parse_withdrawal, parse_tx}
use theta_rosetta_rpc_adapto.Transaction.Returns.{return_key}
use theta_rosetta_rpc_adapto.Wire.{Transaction}
use theta_rosetta_rpc_adapto.Parse.Balance.{net}
use theta_rosetta_rpc_adapto.StakeService.{ReturnStakeTxs}
use theta_rosetta_rpc_adapto.StakeService.Lookup.{stakes_from, stakes_under}
use theta_rosetta_rpc_adapto.Block.Withdrawn.{
  IsAdded, parse_withdrawal-IsAdded, parse_withdrawal-eq-panic_iff,
}
use theta_rosetta_rpc_adapto.Transaction.Dispatch.{Keeps, parse_tx-Keeps}
use theta_rosetta_rpc_adapto.Tests.{sample_theta, withdrawal, table_store, empty_table}
use theta_rosetta_rpc_adapto.Tests.Samples.{client, stake_of, decoder, vcp, candidates}

has_stake :
    get_stake_for_tx sample_theta client withdrawal 100 ≡ ok (returned (some (stake_of 2 70)))
unfolding get_stake_for_tx find_in_pairs find_holder_stake find_stake
has_stake = refl

parse_withdrawal-IsAdded_example :
    (t : Transaction) × (s' : table_store.State) × (rs : ReturnStakeTxs) × (parse_withdrawal
        sample_theta table_store none
        (some client)
        withdrawal
        TxType.withdraw_stake_tx
        1
        100
        empty_table
      ≡ ok (t, s'))
    × (net "THETA" t.operations ≡ pos 0)
    × (net "TFUEL" t.operations ≡ neg (pos 5))
    × (table_store.get (return_key sample_theta table_store 100) s' ≡ some rs)
    × IsAdded sample_theta withdrawal 1 (stake_of 2 70) [] rs
    × ((j : Bytes)
        → return_key sample_theta table_store 100 ≢ j
        → table_store.get j s' ≡ table_store.get j empty_table)
parse_withdrawal-IsAdded_example =
    parse_withdrawal-IsAdded sample_theta table_store none client withdrawal
      TxType.withdraw_stake_tx 1 (stake_of 2 70) (pos 5) 100 empty_table refl has_stake refl

parse_withdrawal-eq-panic_iff_example :
    (parse_withdrawal sample_theta table_store none
        (some client)
        withdrawal
        TxType.withdraw_stake_tx
        1
        100
        empty_table
      ≡ panic)
    ↔ (stakes_from 1 (stakes_under 2 candidates) ≡ [])
parse_withdrawal-eq-panic_iff_example =
    parse_withdrawal-eq-panic_iff sample_theta table_store none client withdrawal
      TxType.withdraw_stake_tx 1 (pos 5) 100 vcp [] candidates empty_table refl refl
      (inl (refl, refl)) (λ rs. refl)

send_ne_withdraw : TxType.send_tx ≢ TxType.withdraw_stake_tx
send_ne_withdraw e = absurd (cc e)

parse_tx-Keeps_example :
    Keeps sample_theta table_store "0x01" empty_table (
      parse_tx sample_theta table_store decoder TxType.send_tx [] 1 none 0 none none 100
        empty_table)
parse_tx-Keeps_example =
    parse_tx-Keeps sample_theta table_store decoder TxType.send_tx [] 1 none 0 none none 100
      empty_table send_ne_withdraw
