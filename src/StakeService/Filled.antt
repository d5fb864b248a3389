-- ===== src/StakeService/Filled.antt =====
-- What the store holds after `GenStakesForSnapshot`.
use theta_rosetta_rpc_adapto.Prelude.{
  ℕ, ◌+◌, ◌%◌, ◌<◌, ◌≡◌, ◌≢◌, refl, ◌∙◌, ap, sym, subst, true, false, Option, none, some, String,
  List, [], ◌∷◌, ◌++◌, ◌==◌, All, arith, Bool-cases, Option-cases, inl, inr,
}
use theta_rosetta_rpc_adapto.Digits.{Bytes}
use theta_rosetta_rpc_adapto.Digits.RoundTrip.{big_bytes-injective}
use theta_rosetta_rpc_adapto.Go.{ok}
use theta_rosetta_rpc_adapto.Wire.{Theta, Coins, Hash}
use theta_rosetta_rpc_adapto.Rpc.{Reply, Status}
use theta_rosetta_rpc_adapto.Store.Interface.{Store}
use theta_rosetta_rpc_adapto.StakeService.{
  Stake, StakeHolder, PoolPair, EenpPair, Client, ReturnStakeTx, ReturnStakeTxs, returned, u64_mod,
  height_bytes,
}
use theta_rosetta_rpc_adapto.StakeService.Snapshot.{
  HeightMap, lookup, insert, add_holders, add_vcp, add_gcp, add_eenp, add_return, add_first_return,
  store_returns, gen_stakes_for_snapshot, theta_coins, tfuel_coins,
}
use theta_rosetta_rpc_adapto.StakeService.Grouping.{
  Entry, pool_entries, returns_at, grown, first_kept, lookup-insert, add_all,
  add_holders-eq-add_all, lookup-add_all_return, lookup-add_all_first_return,
}

-- The keys of two heights are apart, also where the sum wraps.
height_bytes-ne :
    (h j : ℕ) → h < u64_mod → j < u64_mod → h ≢ j → height_bytes (h + 1) ≢ height_bytes (j + 1)
unfolding height_bytes
height_bytes-ne h j p q n e =
    let same = big_bytes-injective ((h + 1) % u64_mod) ((j + 1) % u64_mod) e in
    absurd (n (omega arith))

-- No height is a key twice, and every key is a `uint64`.
abbrev pub IsKeyed : HeightMap → Type 0
IsKeyed [] = Unit
IsKeyed ((h, txs) ∷ m) = (lookup h m ≡ none) × (h < u64_mod) × IsKeyed m

insert-IsKeyed :
    (h : ℕ) (txs : ReturnStakeTxs) (m : HeightMap)
    → h < u64_mod
    → IsKeyed m
    → IsKeyed (insert h txs m)
unfolding insert lookup
insert-IsKeyed h txs [] p k = (refl, p, tt)
insert-IsKeyed h txs ((j, old) ∷ m) p k = elim (Bool-cases (j == h)) [
  | inl e ↦ let same : j ≡ h = ground arith in rw e (rw same at (k.0), p, k.2)
  | inr n ↦
      let other : (h == j) ≡ false = ground arith in
      rw n (lookup-insert h j txs m ∙ rw other (k.0), k.1, insert-IsKeyed h txs m p k.2)
]

add_return-IsKeyed :
    (h : ℕ) (tx : ReturnStakeTx) (m : HeightMap)
    → h < u64_mod
    → IsKeyed m
    → IsKeyed (add_return h tx m)
unfolding add_return
add_return-IsKeyed h tx m p k = elim (Option-cases (lookup h m)) [
  | inl e ↦ rw e (insert-IsKeyed h (tx ∷ []) m p k)
  | inr (old, e) ↦ rw e (insert-IsKeyed h (old ++ tx ∷ []) m p k)
]

add_first_return-IsKeyed :
    (h : ℕ) (tx : ReturnStakeTx) (m : HeightMap)
    → h < u64_mod
    → IsKeyed m
    → IsKeyed (add_first_return h tx m)
unfolding add_first_return
add_first_return-IsKeyed h tx m p k = elim (Option-cases (lookup h m)) [
  | inl e ↦ rw e (insert-IsKeyed h (tx ∷ []) m p k)
  | inr (old, e) ↦ rw e k
]

-- Every return height is a `uint64`.
abbrev pub AreHeights : List Entry → Type 0
AreHeights es = All (λ (e : Entry). e.0 < u64_mod) es

add_all-IsKeyed :
    (add : ℕ → ReturnStakeTx → HeightMap → HeightMap)
    → ((h : ℕ) (tx : ReturnStakeTx) (m : HeightMap)
        → h < u64_mod
        → IsKeyed m
        → IsKeyed (add h tx m))
    → (es : List Entry) (m : HeightMap) → AreHeights es
    → IsKeyed m
    → IsKeyed (add_all add es m)
add_all-IsKeyed add keep [] m b k = k
add_all-IsKeyed add keep ((h, tx) ∷ es) m b k =
    add_all-IsKeyed add keep es (add h tx m) b.1 (keep h tx m b.0 k)

module _ (θ : Theta) (add : ℕ → ReturnStakeTx → HeightMap → HeightMap)
    (keep : (h : ℕ) (tx : ReturnStakeTx) (m : HeightMap)
      → h < u64_mod
      → IsKeyed m
      → IsKeyed (add h tx m))
    (pool : String) (coins : Stake → Coins) (block_hash : Hash) where
  add_holders-IsKeyed :
      (holders : List StakeHolder) (m : HeightMap)
      → AreHeights (pool_entries θ pool coins block_hash holders)
      → IsKeyed m
      → IsKeyed (add_holders θ add pool coins block_hash holders m)
  add_holders-IsKeyed holders m b k =
      subst IsKeyed (sym (add_holders-eq-add_all θ add pool coins block_hash holders m))
        (add_all-IsKeyed add keep (pool_entries θ pool coins block_hash holders) m b k)

-- The map of a snapshot with all three pools.
module _ (θ : Theta) (vcp gcp : PoolPair) (eenp : EenpPair)
    (candidates guardians : List StakeHolder) where
  abbrev candidates_map : HeightMap
  candidates_map = add_holders θ add_return "vcp" theta_coins vcp.block_hash candidates []

  abbrev guardians_map : HeightMap
  guardians_map =
      add_holders θ add_first_return "gcp" theta_coins gcp.block_hash guardians candidates_map

  abbrev snapshot_map : HeightMap
  snapshot_map =
      add_holders θ add_first_return "eenp" tfuel_coins eenp.block_hash eenp.eens guardians_map

  snapshot_map-IsKeyed :
      AreHeights (pool_entries θ "vcp" theta_coins vcp.block_hash candidates)
      → AreHeights (pool_entries θ "gcp" theta_coins gcp.block_hash guardians)
      → AreHeights (pool_entries θ "eenp" tfuel_coins eenp.block_hash eenp.eens)
      → IsKeyed snapshot_map
  snapshot_map-IsKeyed hv hg he =
      add_holders-IsKeyed θ add_first_return add_first_return-IsKeyed "eenp" tfuel_coins
        eenp.block_hash eenp.eens guardians_map he
        (add_holders-IsKeyed θ add_first_return add_first_return-IsKeyed "gcp" theta_coins
          gcp.block_hash guardians candidates_map hg
          (add_holders-IsKeyed θ add_return add_return-IsKeyed "vcp" theta_coins vcp.block_hash
            candidates [] hv tt))

  lookup-snapshot_map :
      (j : ℕ)
      → lookup j snapshot_map
        ≡ first_kept
            (first_kept
              (grown none
                (returns_at j (pool_entries θ "vcp" theta_coins vcp.block_hash candidates)))
              (returns_at j (pool_entries θ "gcp" theta_coins gcp.block_hash guardians)))
            (returns_at j (pool_entries θ "eenp" tfuel_coins eenp.block_hash eenp.eens))
  unfolding lookup
  lookup-snapshot_map j =
      let vs = pool_entries θ "vcp" theta_coins vcp.block_hash candidates in
      let gs = pool_entries θ "gcp" theta_coins gcp.block_hash guardians in
      let ns = pool_entries θ "eenp" tfuel_coins eenp.block_hash eenp.eens in
      ap (lookup j) (
        add_holders-eq-add_all θ add_first_return "eenp" tfuel_coins eenp.block_hash eenp.eens
          guardians_map)
      ∙ lookup-add_all_first_return ns j guardians_map
      ∙ ap (λ o. first_kept o (returns_at j ns))
          (ap (lookup j) (
              add_holders-eq-add_all θ add_first_return "gcp" theta_coins gcp.block_hash guardians
                candidates_map)
            ∙ lookup-add_all_first_return gs j candidates_map
            ∙ ap (λ o. first_kept o (returns_at j gs))
                (ap (lookup j) (
                    add_holders-eq-add_all θ add_return "vcp" theta_coins vcp.block_hash candidates
                      [])
                  ∙ lookup-add_all_return vs j []))

module _ (θ : Theta) (store : Store ReturnStakeTxs)
    (writes : (k : Bytes) (v : ReturnStakeTxs) (s : store.State) → (store.put k v s).0 ≡ true) where
  abbrev pub expected : Option ReturnStakeTxs → Option ReturnStakeTxs → Option ReturnStakeTxs
  expected none before = before
  expected (some txs) before = some (store.canon txs)

  store_returns-get :
      (m : HeightMap) (s : store.State) (j : ℕ)
      → IsKeyed m
      → j < u64_mod
      → store.get (height_bytes (j + 1)) (store_returns θ store m s)
        ≡ expected (lookup j m) (store.get (height_bytes (j + 1)) s)
  unfolding store_returns lookup
  store_returns-get [] s j k p = refl
  store_returns-get ((h, txs) ∷ m) s j k p = elim (Bool-cases (h == j)) [
    | inl e ↦
        let same : h ≡ j = ground arith in
        let missing : lookup j m ≡ none = subst (λ i. lookup i m ≡ none) same k.0 in
        store_returns-get m _ j k.2 p
        ∙ rw (missing, e)
            (subst
              (λ i.
                store.get (height_bytes (i + 1)) (store.put (height_bytes (h + 1)) txs s).1
                ≡ some (store.canon txs))
              same
              (store.get-put_self (height_bytes (h + 1)) txs s
                (writes (height_bytes (h + 1)) txs s)))
    | inr n ↦
        let other : h ≢ j = λ q. absurd (ground arith) in
        store_returns-get m _ j k.2 p
        ∙ rw n (
            ap (expected (lookup j m)) (
              store.get-put_ne (height_bytes (h + 1)) (height_bytes (j + 1)) txs s
                (height_bytes-ne h j k.1 p other)))
  ]

  -- After a snapshot whose three pools were all received, and whose writes all succeed, the store
  -- holds under the key of each height `j + 1` the returns of height `j`: all those of the
  -- validator pool in order; or, where that pool has none, the first one of the guardians; or,
  -- where those have none either, the first one of the elite edge nodes. A height with no return
  -- keeps what was stored before.
  pub gen_stakes_for_snapshot-get :
      (client : Client) (st : Status) (vcp gcp : PoolPair) (eenp : EenpPair) (s : store.State)
      (candidates guardians : List StakeHolder)
      → client.status ≡ Reply.result st
      → client.vcp_by_height st.snapshot_block_height ≡ Reply.result (vcp ∷ [])
      → client.gcp_by_height st.snapshot_block_height ≡ Reply.result (gcp ∷ [])
      → client.eenp_by_height st.snapshot_block_height ≡ Reply.result (eenp ∷ [])
      → vcp.pool ≡ some candidates
      → gcp.pool ≡ some guardians
      → AreHeights (pool_entries θ "vcp" theta_coins vcp.block_hash candidates)
      → AreHeights (pool_entries θ "gcp" theta_coins gcp.block_hash guardians)
      → AreHeights (pool_entries θ "eenp" tfuel_coins eenp.block_hash eenp.eens)
      → (s' : store.State) × (gen_stakes_for_snapshot θ store client s ≡ ok (returned tt, s'))
        × ((j : ℕ)
            → j < u64_mod
            → store.get (height_bytes (j + 1)) s'
              ≡ expected
                  (first_kept
                    (first_kept
                      (grown none
                        (returns_at j (pool_entries θ "vcp" theta_coins vcp.block_hash candidates)))
                      (returns_at j (pool_entries θ "gcp" theta_coins gcp.block_hash guardians)))
                    (returns_at j (pool_entries θ "eenp" tfuel_coins eenp.block_hash eenp.eens)))
                  (store.get (height_bytes (j + 1)) s))
  unfolding gen_stakes_for_snapshot add_vcp add_gcp add_eenp
  gen_stakes_for_snapshot-get client st vcp gcp eenp s candidates guardians es ev eg ee pv pg hv hg
        he =
      let vs = pool_entries θ "vcp" theta_coins vcp.block_hash candidates in
      let gs = pool_entries θ "gcp" theta_coins gcp.block_hash guardians in
      let ns = pool_entries θ "eenp" tfuel_coins eenp.block_hash eenp.eens in
      let m1 = add_holders θ add_return "vcp" theta_coins vcp.block_hash candidates [] in
      let m2 = add_holders θ add_first_return "gcp" theta_coins gcp.block_hash guardians m1 in
      let m3 = add_holders θ add_first_return "eenp" tfuel_coins eenp.block_hash eenp.eens m2 in
      (
        store_returns θ store m3 s,
        rw (es, ev, eg, ee, pv, pg),
        λ j p.
            store_returns-get m3 s j
              (snapshot_map-IsKeyed θ vcp gcp eenp candidates guardians hv hg he) p
            ∙ ap (λ o. expected o (store.get (height_bytes (j + 1)) s))
                (lookup-snapshot_map θ vcp gcp eenp candidates guardians j),
      )
