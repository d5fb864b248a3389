-- ===== src/Tests/Stakes.antt =====
-- A snapshot with a validator and a guardian, and the stake of a withdrawal.
use theta_rosetta_rpc_adapto.Start.{starts}
use theta_rosetta_rpc_adapto.Start.Restarts.{AnswersStatus, starts-eq-first}
use theta_rosetta_rpc_adapto.Prelude.{
  ℕ, ◌+◌, ◌≡◌, refl, ◌<◌, true, false, none, some, [], ◌∷◌, inl, arith,
}
use theta_rosetta_rpc_adapto.Go.{ok}
use theta_rosetta_rpc_adapto.Rpc.{Reply, get_status, zero_status}
use theta_rosetta_rpc_adapto.StakeService.{
  Client, Outcome, returned, u64_mod, height_bytes, get_stake_for_tx,
}
use theta_rosetta_rpc_adapto.StakeService.Lookup.{
  first, stakes_from, stakes_under, get_stake_for_tx-eq-first,
}
use theta_rosetta_rpc_adapto.StakeService.Snapshot.{
  HeightMap, lookup, add_vcp, add_gcp, gen_stakes_for_snapshot, theta_coins, tfuel_coins,
}
use theta_rosetta_rpc_adapto.StakeService.Grouping.{
  pool_entries, returns_at, grown, first_kept, add_vcp-lookup, add_gcp-lookup,
}
use theta_rosetta_rpc_adapto.StakeService.Filled.{expected, gen_stakes_for_snapshot-get}
use theta_rosetta_rpc_adapto.Tests.Samples.{client, vcp, gcp, eenp, candidates, guardians}
use theta_rosetta_rpc_adapto.Tests.{sample_theta, withdrawal, table_store, empty_table}

get_stake_for_tx-eq-first_example :
    get_stake_for_tx sample_theta client withdrawal 100
    ≡ ok (
        returned (
          first (
            stakes_from withdrawal.source.address
              (stakes_under withdrawal.holder.address candidates))))
get_stake_for_tx-eq-first_example =
    get_stake_for_tx-eq-first sample_theta client withdrawal 100 vcp [] candidates refl
      (inl (refl, refl))

add_vcp-lookup_example :
    (m' : HeightMap) × (add_vcp sample_theta (vcp ∷ []) [] ≡ ok m')
    × ((j : ℕ)
        → lookup j m'
          ≡ grown
              (lookup j [])
              (returns_at j (pool_entries sample_theta "vcp" theta_coins 1 candidates)))
add_vcp-lookup_example = add_vcp-lookup sample_theta vcp [] candidates [] refl

add_gcp-lookup_example :
    (m' : HeightMap) × (add_gcp sample_theta (gcp ∷ []) [] ≡ ok m')
    × ((j : ℕ)
        → lookup j m'
          ≡ first_kept
              (lookup j [])
              (returns_at j (pool_entries sample_theta "gcp" theta_coins 1 guardians)))
add_gcp-lookup_example = add_gcp-lookup sample_theta gcp [] guardians [] refl

gen_stakes_for_snapshot-get_example :
    (s' : table_store.State) × (gen_stakes_for_snapshot sample_theta table_store client empty_table
      ≡ ok (returned tt, s'))
    × ((j : ℕ)
        → j < u64_mod
        → table_store.get (height_bytes (j + 1)) s'
          ≡ expected sample_theta table_store
              (λ k v s. refl)
              (first_kept
                (first_kept
                  (grown none
                    (returns_at j (pool_entries sample_theta "vcp" theta_coins 1 candidates)))
                  (returns_at j (pool_entries sample_theta "gcp" theta_coins 1 guardians)))
                (returns_at j (pool_entries sample_theta "eenp" tfuel_coins 1 [])))
              none)
gen_stakes_for_snapshot-get_example =
    gen_stakes_for_snapshot-get sample_theta table_store (λ k v s. refl) client zero_status vcp gcp
      eenp empty_table candidates guardians refl refl refl refl refl refl
      (omega arith, (omega arith, tt)) (omega arith, tt) tt

-- A node that does not know its validators yet.
abbrev unready : Client
unready = record client { vcp_by_height = λ h. Reply.call_failed }

fails_to_fill :
    gen_stakes_for_snapshot sample_theta table_store unready empty_table
    ≡ ok (Outcome.failed, empty_table)
unfolding gen_stakes_for_snapshot get_status
fails_to_fill = refl

answers : AnswersStatus client
unfolding get_status
answers = (some zero_status, refl)

has_status : get_status unready.status ≡ ok (some zero_status)
unfolding get_status
has_status = refl

starts-eq-first_example :
    starts sample_theta table_store
      (λ id. true)
      (unready ∷ client ∷ [])
      (record { directory = false; contents = empty_table })
    ≡ ok (record { directory = true; contents = empty_table })
starts-eq-first_example =
    starts-eq-first sample_theta table_store (λ id. true) unready (client ∷ []) zero_status
      empty_table empty_table Outcome.failed has_status refl fails_to_fill (answers, tt)
