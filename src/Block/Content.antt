-- ===== src/Block/Content.antt =====
-- What a block response holds.
use theta_rosetta_rpc_adapto.Prelude.{
  ℕ, suc, ◌≡◌, refl, ◌∙◌, ap, sym, subst, String, Option, none, some, List, [], ◌∷◌, ◌++◌, map, All,
}
use theta_rosetta_rpc_adapto.Prelude.Int.{ℤ}
use theta_rosetta_rpc_adapto.Digits.{Bytes}
use theta_rosetta_rpc_adapto.Go.{Go, ok, panic, ◌>>=◌, index}
use theta_rosetta_rpc_adapto.Names.{block_status_string}
use theta_rosetta_rpc_adapto.Wire.{Transaction, Theta}
use theta_rosetta_rpc_adapto.Parse.Sequence.{IsSequenced}
use theta_rosetta_rpc_adapto.Parse.Sequence.StakeOrder.{parse_return_stake_tx-IsSequenced}
use theta_rosetta_rpc_adapto.Store.Interface.{Store}
use theta_rosetta_rpc_adapto.StakeService.{Client, ReturnStakeTx, ReturnStakeTxs, height_bytes}
use theta_rosetta_rpc_adapto.Transaction.{Decoder}
use theta_rosetta_rpc_adapto.Transaction.Dispatch.{IsComplete, Answers, parse_tx-Answers}
use theta_rosetta_rpc_adapto.Block.{
  Tx, BlockResult, Block, or_zero_gas, return_transaction, returns_of, parse_txs,
  entry_transactions, parse_block, block_of,
}

abbrev pub hashes : List Transaction → List String
hashes ts = map (λ (t : Transaction). t.hash) ts

abbrev pub return_hashes : ReturnStakeTxs → List String
return_hashes rs = map (λ (r : ReturnStakeTx). r.hash) rs

abbrev pub AreSequenced : String → List Transaction → Type 0
AreSequenced status ts = All (λ (t : Transaction). IsSequenced (some status) 0 t.operations) ts

-- Every raw entry has its struct, and together they are complete; `shown` are the structs in order.
abbrev pub AreComplete : Decoder → List Tx → ℕ → List Bytes → List Tx → Type 0
AreComplete decode txs i [] [] = Unit
AreComplete decode txs i [] (t ∷ shown) = ⊥
AreComplete decode txs i (raw ∷ raws) [] = ⊥
AreComplete decode txs i (raw ∷ raws) (t ∷ shown) =
    (index txs i ≡ ok t)
    × IsComplete decode t.type raw (or_zero_gas t.gas_used) t.balance_changes
    × AreComplete decode txs (suc i) raws shown

module _ (θ : Theta) (store : Store ReturnStakeTxs) where
  abbrev pub tx_hashes : List Tx → List String
  tx_hashes ts = map (λ (t : Tx). θ.hash_string t.hash) ts

  -- What the loop over the entries comes to.
  abbrev Parsed : String → List String → store.State → Go (List Transaction × store.State) → Type 0
  Parsed status hs s (ok (ts, s')) = (hashes ts ≡ hs) × (s' ≡ s) × AreSequenced status ts
  Parsed status hs s panic = ⊥

  Parsed-then :
      (status hash : String) (hs : List String) (s : store.State) (t : Transaction)
      (m : Go (List Transaction × store.State))
      → t.hash ≡ hash
      → IsSequenced (some status) 0 t.operations
      → Parsed status hs s m
      → Parsed status (hash ∷ hs) s (m >>= λ more. ok (t ∷ more.0, more.1))
  Parsed-then status hash hs s t (ok (ts, s')) e q (es, k, qs) = ((λ i. e i ∷ es i), k, (q, qs))
  Parsed-then status hash hs s t panic e q r = absurd r

  Parsed-cons :
      (status hash : String) (hs : List String) (s : store.State)
      (m : Go (Transaction × store.State))
      (rest : store.State → Go (List Transaction × store.State))
      → Answers θ store (some status) hash s m
      → Parsed status hs s (rest s)
      → Parsed status
          (hash ∷ hs)
          s
          (m >>= λ parsed. rest parsed.1 >>= λ more. ok (parsed.0 ∷ more.0, more.1))
  Parsed-cons status hash hs s (ok (t, s')) rest (e, k, q) r =
      rw k (Parsed-then status hash hs s t (rest s) e q r)
  Parsed-cons status hash hs s panic rest a r = absurd a

  module _ (decode : Decoder) where
    parse_txs-Parsed :
        (client : Client) (status : String) (height : ℕ) (txs : List Tx) (i : ℕ) (raws : List Bytes)
        (shown : List Tx) (s : store.State)
        → AreComplete decode txs i raws shown
        → Parsed status
            (tx_hashes shown)
            s
            (parse_txs θ store decode client status height txs i raws s)
    unfolding parse_txs
    parse_txs-Parsed client status height txs i [] [] s h = (refl, refl, tt)
    parse_txs-Parsed client status height txs i [] (t ∷ shown) s h = absurd h
    parse_txs-Parsed client status height txs i (raw ∷ raws) [] s h = absurd h
    parse_txs-Parsed client status height txs i (raw ∷ raws) (t ∷ shown) s (e, c, h) = rw e (
        Parsed-cons status (θ.hash_string t.hash) (tx_hashes shown) s _
          (parse_txs θ store decode client status height txs (suc i) raws)
          (parse_tx-Answers θ store decode t.type raw t.hash (some status) (or_zero_gas t.gas_used)
            t.balance_changes (some client) height s c)
          (parse_txs-Parsed client status height txs (suc i) raws shown s h))

  returned_transactions :
      (status : String) (rs : ReturnStakeTxs)
      → (hashes (map (return_transaction θ status) rs) ≡ return_hashes rs)
        × AreSequenced status (map (return_transaction θ status) rs)
  unfolding return_transaction
  returned_transactions status [] = (refl, tt)
  returned_transactions status (r ∷ rs) =
      let (e, q) = returned_transactions status rs in
      ((λ i. r.hash ∷ e i), (parse_return_stake_tx-IsSequenced θ (some status) r.tx _, q))

  hashes-append : (xs ys : List Transaction) → hashes (xs ++ ys) ≡ hashes xs ++ hashes ys
  hashes-append [] ys = refl
  hashes-append (x ∷ xs) ys = λ i. x.hash ∷ hashes-append xs ys i

  AreSequenced-append :
      (status : String) (xs ys : List Transaction)
      → AreSequenced status xs
      → AreSequenced status ys
      → AreSequenced status (xs ++ ys)
  AreSequenced-append status [] ys p q = q
  AreSequenced-append status (x ∷ xs) ys p q = (p.0, AreSequenced-append status xs ys p.1 q)

  -- Every raw entry of the answer, none where there are no entries.
  abbrev pub raws_of : Option (List Bytes) → List Bytes
  raws_of none = []
  raws_of (some raws) = raws

  -- A block with the given hashes of transactions, each in order; and the store as it was.
  abbrev pub Shows : String → List String → store.State → Go (Option (Block × store.State)) → Type 0
  Shows status hs s (ok (some (b, s'))) =
      (hashes b.transactions ≡ hs) × (s' ≡ s) × AreSequenced status b.transactions
  Shows status hs s (ok none) = ⊥
  Shows status hs s panic = ⊥

  module _ (decode : Decoder) where
    entry_transactions-Parsed :
        (client : Client) (status : String) (b : BlockResult) (raws : Option (List Bytes))
        (shown : List Tx) (s : store.State)
        → AreComplete decode b.txs 0 (raws_of raws) shown
        → Parsed status
            (tx_hashes shown)
            s
            (entry_transactions θ store decode client status b raws s)
    unfolding entry_transactions
    entry_transactions-Parsed client status b none [] s h = (refl, refl, tt)
    entry_transactions-Parsed client status b none (t ∷ shown) s h = absurd h
    entry_transactions-Parsed client status b (some raws) shown s h =
        parse_txs-Parsed decode client status b.height b.txs 0 raws shown s h

    Shows-bind :
        (status : String) (hs : List String) (s : store.State) (rs : store.State → ReturnStakeTxs)
        (m : Go (List Transaction × store.State)) (build : List Transaction → Block)
        → ((ts : List Transaction) → (build ts).transactions ≡ ts)
        → Parsed status hs s m
        → Shows status (hs ++ return_hashes (rs s)) s (
            m >>= λ entries. ok (
              some
                (build (entries.0 ++ map (return_transaction θ status) (rs entries.1)), entries.1)))
    Shows-bind status hs s rs (ok (ts, s')) build b (e, k, q) =
        let back = returned_transactions status (rs s') in
        (
          ap hashes (b _)
              ∙ hashes-append ts _
              ∙ ap (λ xs. xs ++ hashes (map (return_transaction θ status) (rs s'))) e
              ∙ ap (λ ys. hs ++ ys) back.0
              ∙ ap (λ r. hs ++ return_hashes (rs r)) k,
          k,
          subst (AreSequenced status) (sym (b _)) (AreSequenced-append status ts _ q back.1),
        )
    Shows-bind status hs s rs panic build b r = absurd r

    -- A block that has a timestamp and a known status, and whose entries are complete and no
    -- withdrawals, is answered without a panic: its transactions are the entries' in order, under
    -- the ledger's hashes, and then the returns that are stored for its height, under theirs; each
    -- one's operations are in order and carry the block's status; and the store stays as it was.
    pub parse_block-Shows :
        (client : Client) (b : BlockResult) (time : ℤ) (status : String) (shown : List Tx)
        (s : store.State)
        → b.timestamp ≡ some time
        → block_status_string b.status ≡ ok status
        → AreComplete decode b.txs 0 (raws_of b.raws) shown
        → Shows status
            (tx_hashes shown ++ return_hashes (returns_of (store.get (height_bytes b.height) s)))
            s
            (parse_block θ store decode client (some b) s)
    unfolding parse_block block_of
    parse_block-Shows client b time status shown s t e h =
        rw (t, e)
          (Shows-bind status (tx_hashes shown) s
            (λ r. returns_of (store.get (height_bytes b.height) r)) _ (block_of θ b time status)
            (λ ts. refl) (entry_transactions-Parsed client status b b.raws shown s h))
