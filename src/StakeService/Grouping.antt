-- ===== src/StakeService/Grouping.antt =====
-- What `GenStakesForSnapshot` leaves in its map, against the list of the withdrawn stakes.
use theta_rosetta_rpc_adapto.Prelude.{
  ℕ, suc, ◌≡◌, refl, ◌∙◌, ap, sym, String, Option, none, some, List, [], ◌∷◌, ◌++◌, ◌==◌,
  if◌then◌else◌, arith, Bool-cases, Option-cases, append_assoc, append-nil, inl, inr,
}
use theta_rosetta_rpc_adapto.Go.{ok}
use theta_rosetta_rpc_adapto.Wire.{Hash, Coins, Theta}
use theta_rosetta_rpc_adapto.StakeService.{
  Stake, StakeHolder, PoolPair, EenpPair, ReturnStakeTx, ReturnStakeTxs,
}
use theta_rosetta_rpc_adapto.StakeService.Snapshot.{
  HeightMap, lookup, insert, add_return, add_first_return, return_tx, add_stakes, add_holders,
  add_vcp, add_gcp, add_eenp, theta_coins, tfuel_coins,
}

-- A withdrawn stake: its return height and what is to be returned.
abbrev pub Entry : Type 0
Entry = ℕ × ReturnStakeTx

-- The withdrawn stakes of a pool in order, each named by its place among its holder's stakes.
module _ (θ : Theta) (pool : String) (coins : Stake → Coins) (block_hash : Hash) where
  abbrev pub stake_entries : ℕ → List Stake → List Entry
  stake_entries i [] = []
  stake_entries i (stake ∷ stakes) =
      if stake.withdrawn
      then (stake.return_height, return_tx θ pool block_hash coins i stake)
        ∷ stake_entries (suc i) stakes
      else stake_entries (suc i) stakes

  abbrev pub pool_entries : List StakeHolder → List Entry
  pool_entries [] = []
  pool_entries (h ∷ hs) = stake_entries 0 h.stakes ++ pool_entries hs

-- What is to be returned at one height.
abbrev pub returns_at : ℕ → List Entry → ReturnStakeTxs
returns_at h [] = []
returns_at h ((k, tx) ∷ es) = if k == h then tx ∷ returns_at h es else returns_at h es

abbrev pub add_all :
    (ℕ → ReturnStakeTx → HeightMap → HeightMap) → List Entry → HeightMap → HeightMap
add_all add [] m = m
add_all add ((h, tx) ∷ es) m = add_all add es (add h tx m)

add_all-append :
    (add : ℕ → ReturnStakeTx → HeightMap → HeightMap) (es fs : List Entry) (m : HeightMap)
    → add_all add (es ++ fs) m ≡ add_all add fs (add_all add es m)
add_all-append add [] fs m = refl
add_all-append add ((h, tx) ∷ es) fs m = add_all-append add es fs (add h tx m)

module _ (θ : Theta) (add : ℕ → ReturnStakeTx → HeightMap → HeightMap) (pool : String)
    (coins : Stake → Coins) (block_hash : Hash) where
  add_stakes-eq-add_all :
      (i : ℕ) (stakes : List Stake) (m : HeightMap)
      → add_stakes θ add pool coins block_hash i stakes m
        ≡ add_all add (stake_entries θ pool coins block_hash i stakes) m
  unfolding add_stakes
  add_stakes-eq-add_all i [] m = refl
  add_stakes-eq-add_all i (stake ∷ stakes) m = elim (Bool-cases stake.withdrawn) [
    | inl w ↦ rw w (add_stakes-eq-add_all (suc i) stakes _)
    | inr k ↦ rw k (add_stakes-eq-add_all (suc i) stakes m)
  ]

  pub add_holders-eq-add_all :
      (holders : List StakeHolder) (m : HeightMap)
      → add_holders θ add pool coins block_hash holders m
        ≡ add_all add (pool_entries θ pool coins block_hash holders) m
  unfolding add_holders
  add_holders-eq-add_all [] m = refl
  add_holders-eq-add_all (h ∷ hs) m =
      add_holders-eq-add_all hs _
      ∙ ap (add_all add (pool_entries θ pool coins block_hash hs))
          (add_stakes-eq-add_all 0 h.stakes m)
      ∙ sym (
          add_all-append add (stake_entries θ pool coins block_hash 0 h.stakes)
            (pool_entries θ pool coins block_hash hs) m)

pub lookup-insert :
    (h j : ℕ) (txs : ReturnStakeTxs) (m : HeightMap)
    → lookup j (insert h txs m) ≡ (if h == j then some txs else lookup j m)
unfolding lookup insert
lookup-insert h j txs [] = refl
lookup-insert h j txs ((k, old) ∷ m) = ground (arith, lookup-insert h j txs m)

-- All returns of a height behind those that are there.
abbrev pub grown : Option ReturnStakeTxs → ReturnStakeTxs → Option ReturnStakeTxs
grown none [] = none
grown none (tx ∷ txs) = some (tx ∷ txs)
grown (some old) txs = some (old ++ txs)

grown-cons :
    (old : Option ReturnStakeTxs) (tx : ReturnStakeTx) (txs : ReturnStakeTxs)
    → grown (grown old (tx ∷ [])) txs ≡ grown old (tx ∷ txs)
grown-cons none tx txs = refl
grown-cons (some old) tx txs = ap some (append_assoc old (tx ∷ []) txs)

grown-nil : (old : Option ReturnStakeTxs) → grown old [] ≡ old
grown-nil none = refl
grown-nil (some old) = ap some (append-nil old)

-- The first return of a height, and only where nothing is there.
abbrev pub first_kept : Option ReturnStakeTxs → ReturnStakeTxs → Option ReturnStakeTxs
first_kept none [] = none
first_kept none (tx ∷ txs) = some (tx ∷ [])
first_kept (some old) txs = some old

lookup-add_return :
    (h j : ℕ) (tx : ReturnStakeTx) (m : HeightMap)
    → lookup j (add_return h tx m) ≡ (if h == j then grown (lookup j m) (tx ∷ []) else lookup j m)
unfolding add_return
lookup-add_return h j tx m = elim (Option-cases (lookup h m)) [
  | inl e ↦ ground (arith, e, lookup-insert h j (tx ∷ []) m)
  | inr (old, e) ↦ ground (arith, e, lookup-insert h j (old ++ tx ∷ []) m)
]

lookup-add_first_return :
    (h j : ℕ) (tx : ReturnStakeTx) (m : HeightMap)
    → lookup j (add_first_return h tx m)
      ≡ (if h == j then first_kept (lookup j m) (tx ∷ []) else lookup j m)
unfolding add_first_return
lookup-add_first_return h j tx m = elim (Option-cases (lookup h m)) [
  | inl e ↦ ground (arith, e, lookup-insert h j (tx ∷ []) m)
  | inr (old, e) ↦ ground (arith, e)
]

-- Adding them all, the map holds each height's returns in order.
pub lookup-add_all_return :
    (es : List Entry) (j : ℕ) (m : HeightMap)
    → lookup j (add_all add_return es m) ≡ grown (lookup j m) (returns_at j es)
lookup-add_all_return [] j m = sym (grown-nil (lookup j m))
lookup-add_all_return ((h, tx) ∷ es) j m =
    lookup-add_all_return es j (add_return h tx m) ∙ elim (Bool-cases (h == j)) [
      | inl e ↦ rw (lookup-add_return h j tx m, e) (grown-cons (lookup j m) tx (returns_at j es))
      | inr n ↦ rw (lookup-add_return h j tx m, n)
    ]

first_kept-first :
    (old : Option ReturnStakeTxs) (tx : ReturnStakeTx) (txs : ReturnStakeTxs)
    → first_kept (first_kept old (tx ∷ [])) txs ≡ first_kept old (tx ∷ txs)
first_kept-first none tx txs = refl
first_kept-first (some old) tx txs = refl

first_kept-nil : (old : Option ReturnStakeTxs) → first_kept old [] ≡ old
first_kept-nil none = refl
first_kept-nil (some old) = refl

pub lookup-add_all_first_return :
    (es : List Entry) (j : ℕ) (m : HeightMap)
    → lookup j (add_all add_first_return es m) ≡ first_kept (lookup j m) (returns_at j es)
lookup-add_all_first_return [] j m = sym (first_kept-nil (lookup j m))
lookup-add_all_first_return ((h, tx) ∷ es) j m =
    lookup-add_all_first_return es j (add_first_return h tx m) ∙ elim (Bool-cases (h == j)) [
      | inl e ↦
          rw (lookup-add_first_return h j tx m, e)
            (first_kept-first (lookup j m) tx (returns_at j es))
      | inr n ↦ rw (lookup-add_first_return h j tx m, n)
    ]

module _ (θ : Theta) where
  -- The validator pool of the first pair enters the map whole: at each height stand the returns
  -- that stood there, and behind them all the pool's returns of that height in order.
  pub add_vcp-lookup :
      (pair : PoolPair) (pairs : List PoolPair) (holders : List StakeHolder) (m : HeightMap)
      → pair.pool ≡ some holders
      → (m' : HeightMap) × (add_vcp θ (pair ∷ pairs) m ≡ ok m')
        × ((j : ℕ)
            → lookup j m'
              ≡ grown
                  (lookup j m)
                  (returns_at j (pool_entries θ "vcp" theta_coins pair.block_hash holders)))
  unfolding add_vcp
  add_vcp-lookup pair pairs holders m e = (
    add_holders θ add_return "vcp" theta_coins pair.block_hash holders m,
    rw e,
    λ j.
        ap (lookup j)
          (add_holders-eq-add_all θ add_return "vcp" theta_coins pair.block_hash holders m)
        ∙ lookup-add_all_return (pool_entries θ "vcp" theta_coins pair.block_hash holders) j m,
  )

  -- Of the guardian pool, a height keeps the first return alone, and that only if the map had none:
  -- every further return of the height is lost.
  pub add_gcp-lookup :
      (pair : PoolPair) (pairs : List PoolPair) (holders : List StakeHolder) (m : HeightMap)
      → pair.pool ≡ some holders
      → (m' : HeightMap) × (add_gcp θ (pair ∷ pairs) m ≡ ok m')
        × ((j : ℕ)
            → lookup j m'
              ≡ first_kept
                  (lookup j m)
                  (returns_at j (pool_entries θ "gcp" theta_coins pair.block_hash holders)))
  unfolding add_gcp
  add_gcp-lookup pair pairs holders m e = (
    add_holders θ add_first_return "gcp" theta_coins pair.block_hash holders m,
    rw e,
    λ j.
        ap (lookup j)
          (add_holders-eq-add_all θ add_first_return "gcp" theta_coins pair.block_hash holders m)
        ∙ lookup-add_all_first_return (pool_entries θ "gcp" theta_coins pair.block_hash holders) j
            m,
  )

  -- So it is with the elite edge nodes.
  pub add_eenp-lookup :
      (pair : EenpPair) (pairs : List EenpPair) (m : HeightMap) (j : ℕ)
      → lookup j (add_eenp θ (pair ∷ pairs) m)
        ≡ first_kept
            (lookup j m)
            (returns_at j (pool_entries θ "eenp" tfuel_coins pair.block_hash pair.eens))
  unfolding add_eenp
  add_eenp-lookup pair pairs m j =
      ap (lookup j)
        (add_holders-eq-add_all θ add_first_return "eenp" tfuel_coins pair.block_hash pair.eens m)
      ∙ lookup-add_all_first_return (pool_entries θ "eenp" tfuel_coins pair.block_hash pair.eens) j
          m
