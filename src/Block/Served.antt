-- ===== src/Block/Served.antt =====
-- Stores behind block requests that are answered or panic, and what a later block shows of them.
use theta_rosetta_rpc_adapto.Prelude.{
  [], suc, arith, ◌+◌, refl, sym, length, ◌∙◌, ℕ, ◌≡◌, ap, subst, String, true, Option, some, List,
  ◌∷◌, ◌++◌,
}
use theta_rosetta_rpc_adapto.Prelude.Int.{ℤ}
use theta_rosetta_rpc_adapto.Digits.{Bytes}
use theta_rosetta_rpc_adapto.Go.{Go, ◌>>=◌, ok, panic, index}
use theta_rosetta_rpc_adapto.Names.{TxType, block_status_string}
use theta_rosetta_rpc_adapto.Wire.{Transaction, Hash, BalanceChange, Theta}
use theta_rosetta_rpc_adapto.Store.Interface.{Store}
use theta_rosetta_rpc_adapto.StakeService.{
  Stake, Client, ReturnStakeTx, ReturnStakeTxs, returned, height_bytes, get_stake_for_tx,
}
use theta_rosetta_rpc_adapto.Transaction.{Decoder, extend_returns, return_of, parse_tx}
use theta_rosetta_rpc_adapto.Transaction.Returns.{return_key, scheduled, parse_withdrawal-IsStored}
use theta_rosetta_rpc_adapto.Block.{
  Block, BlockResult, Tx, returns_of, parse_block, parse_txs, or_zero_gas,
}
use theta_rosetta_rpc_adapto.Block.Content.{
  AreComplete, Shows, raws_of, tx_hashes, return_hashes, parse_block-Shows,
}
use theta_rosetta_rpc_adapto.Block.Left.{block_left, txs_left, entries_left}
use theta_rosetta_rpc_adapto.Block.Left.Agreement.{Agrees, parse_txs-Agrees, parse_block-block_left}
use theta_rosetta_rpc_adapto.Block.Left.Stays.{txs_left-stays, block_left-stays}
use theta_rosetta_rpc_adapto.Block.Once.{
  count, IsAtomic, KeepsHashes, IsAtMostOnce, IsOnce, put-IsAtMostOnce, put-IsOnce, added-IsOnce,
}

bind-ok :
    {A B : Type 0} (m : Go A) (f : A → Go B) {b : B}
    → (m >>= f) ≡ ok b
    → (a : A) × (m ≡ ok a) × (f a ≡ ok b)
bind-ok (ok a) f e = (a, refl, e)
bind-ok panic f e = absurd (cc e)

module _ (θ : Theta) (store : Store ReturnStakeTxs) (decode : Decoder) where
  -- Block requests one after the other, each with what the node then says. One that panics leaves the
  -- store as it was at the panic, and the server goes on.
  pub data Serves : store.State → store.State → Type 0 where
    start : {s : store.State} → Serves s s
    answered :
        {s s1 s2 : store.State} (client : Client) (result : BlockResult) (b : Block)
        → parse_block θ store decode client (some result) s ≡ ok (some (b, s1))
        → Serves s1 s2
        → Serves s s2
    broken_off :
        {s s2 : store.State} (client : Client) (result : BlockResult)
        → parse_block θ store decode client (some result) s ≡ panic
        → Serves (block_left θ store decode client result s) s2
        → Serves s s2

  -- What adding a return keeps is there behind all requests.
  Serves-stays :
      (P : store.State → Type 0)
      → ((key : Bytes) (r : ReturnStakeTx) (s : store.State)
          → P s
          → P (store.put key (extend_returns r (store.get key s)) s).1)
      → (s s' : store.State) → P s
      → Serves s s'
      → P s'
  Serves-stays P closed s s' p Serves.start = p
  Serves-stays P closed s s' p (Serves.answered {s1 = s1} client result b e r) =
      Serves-stays P closed s1 s'
        (subst P (parse_block-block_left θ store decode client result b s s1 e)
          (block_left-stays θ store decode P closed client result s p))
        r
  Serves-stays P closed s s' p (Serves.broken_off client result e r) =
      Serves-stays P closed (block_left θ store decode client result s) s'
        (block_left-stays θ store decode P closed client result s p) r

  -- If what is stored under a key has a hash at most once, it has it at most once after any block
  -- requests, repeated ones and ones that panic included. The store gives back the hashes that were
  -- written, and a write that fails changes nothing.
  pub Serves-IsAtMostOnce :
      (h : String) (k : Bytes) (s s' : store.State)
      → KeepsHashes store
      → IsAtomic store
      → IsAtMostOnce store h k s
      → Serves s s'
      → IsAtMostOnce store h k s'
  Serves-IsAtMostOnce h k s s' keeps atomic =
      Serves-stays (IsAtMostOnce store h k) (put-IsAtMostOnce store keeps atomic h k) s s'

  -- A return that is stored once for a height is shown there once: whatever block requests are
  -- answered or panic first, the block of that height, if it has a timestamp and a known status and
  -- its entries are complete and no withdrawals, is answered with its entries and then the returns
  -- that are stored for it, exactly one of them under that return's hash. The store gives back the
  -- hashes that were written, and a write that fails changes nothing.
  pub Serves-Shows :
      (h : String) (s s' : store.State) (client : Client) (b : BlockResult) (time : ℤ)
      (status : String) (shown : List Tx)
      → KeepsHashes store
      → IsAtomic store
      → IsOnce store h (height_bytes b.height) s
      → Serves s s'
      → b.timestamp ≡ some time
      → block_status_string b.status ≡ ok status
      → AreComplete decode b.txs 0 (raws_of θ store b.raws) shown
      → (rs : ReturnStakeTxs) × (count h (return_hashes rs) ≡ 1)
        × Shows θ store status
            (tx_hashes θ store shown ++ return_hashes rs)
            s'
            (parse_block θ store decode client (some b) s')
  Serves-Shows h s s' client b time status shown keeps atomic once r t e c =
      let key = height_bytes b.height in
      let (rs, there, single) =
        Serves-stays (IsOnce store h key) (put-IsOnce store keeps atomic h key) s s' once r in
      (
        rs,
        single,
        subst
            (λ xs.
              Shows θ store status (tx_hashes θ store shown ++ return_hashes xs) s'
                (parse_block θ store decode client (some b) s'))
            (ap returns_of there)
            (parse_block-Shows θ store decode client b time status shown s' t e c),
      )

  -- Entries that are parsed leave the loop with the rest and with the store behind them.
  txs_left-append :
      (client : Client) (status : String) (height : ℕ) (txs : List Tx) (i : ℕ)
      (earlier later : List Bytes) (s s1 : store.State) (ts : List Transaction)
      → parse_txs θ store decode client status height txs i earlier s ≡ ok (ts, s1)
      → txs_left θ store decode client status height txs i (earlier ++ later) s
        ≡ txs_left θ store decode client status height txs (i + length earlier) later s1
  unfolding parse_txs txs_left
  txs_left-append client status height txs i [] later s s1 ts e =
      let there : s ≡ s1 = cc e in let start : i + 0 ≡ i = omega arith in rw (there, start)
  txs_left-append client status height txs i (raw ∷ earlier) later s s1 ts e =
      let (tx, e1, rest1) = bind-ok (index txs i) _ e in
      let (parsed, e2, rest2) =
        bind-ok
          (parse_tx θ store decode tx.type raw tx.hash (some status) (or_zero_gas tx.gas_used)
            tx.balance_changes (some client) height s)
          _ rest1 in
      let (rest, e3, done) =
        bind-ok (parse_txs θ store decode client status height txs (suc i) earlier parsed.1) _
          rest2 in
      let same : rest.1 ≡ s1 = cc done in
      let next : i + suc (length earlier) ≡ suc i + length earlier = omega arith in
      rw (e1, e2, next)
        (txs_left-append client status height txs (suc i) earlier later parsed.1 rest.1 rest.0 e3
          ∙ ap (txs_left θ store decode client status height txs (suc i + length earlier) later)
              same)

  parse_txs-IsAtMostOnce :
      (client : Client) (status : String) (height : ℕ) (txs : List Tx) (raws : List Bytes)
      (h : String) (k : Bytes) (s s1 : store.State) (ts : List Transaction)
      → KeepsHashes store
      → IsAtomic store
      → parse_txs θ store decode client status height txs 0 raws s ≡ ok (ts, s1)
      → IsAtMostOnce store h k s
      → IsAtMostOnce store h k s1
  parse_txs-IsAtMostOnce client status height txs raws h k s s1 ts keeps atomic e once =
      subst (IsAtMostOnce store h k)
        (sym (
          subst
            (λ m. Agrees (λ r. r.1) m (txs_left θ store decode client status height txs 0 raws s)) e
            (parse_txs-Agrees θ store decode client status height txs 0 raws s)))
        (txs_left-stays θ store decode (IsAtMostOnce store h k)
          (put-IsAtMostOnce store keeps atomic h k) client status height txs 0 raws s once)

  -- In a block that has a timestamp and a known status, and whose entries before a withdrawal are
  -- parsed, the withdrawal has a fee, its stake is found and its return can be written. Then,
  -- whether the block is answered or a later entry panics, the return is stored under its height
  -- exactly once, if its hash was stored there at most once before. The store gives back the hashes
  -- that were written, and a write that fails changes nothing.
  pub block_left-IsOnce :
      (client : Client) (result : BlockResult) (earlier : List Bytes) (raw : Bytes)
      (later : List Bytes) (tx_hash : Hash) (gas : Option ℕ) (changes : Option (List BalanceChange))
      (time : ℤ) (status : String) (ts : List Transaction) (stake : Stake) (fee : ℤ)
      (s s1 : store.State)
      → KeepsHashes store
      → IsAtomic store
      → result.timestamp ≡ some time
      → block_status_string result.status ≡ ok status
      → result.raws ≡ some (earlier ++ raw ∷ later)
      → parse_txs θ store decode client status result.height result.txs 0 earlier s ≡ ok (ts, s1)
      → index result.txs (length earlier)
        ≡ ok (record {
          type = TxType.withdraw_stake_tx;
          hash = tx_hash;
          gas_used = gas;
          balance_changes = changes;
        })
      → (decode.withdraw_stake raw).fee.tfuel_wei ≡ some fee
      → get_stake_for_tx θ client (decode.withdraw_stake raw) result.height
        ≡ ok (returned (some stake))
      → (store.put
          (return_key θ store result.height)
          (scheduled θ store (decode.withdraw_stake raw) tx_hash stake result.height s1)
          s1).0
        ≡ true
      → IsAtMostOnce store (θ.hash_hex tx_hash) (return_key θ store result.height) s
      → IsOnce store
          (θ.hash_hex tx_hash)
          (return_key θ store result.height)
          (block_left θ store decode client result s)
  unfolding block_left entries_left txs_left parse_tx
  block_left-IsOnce client result earlier raw later tx_hash gas changes time status ts stake fee s
        s1 keeps atomic t e c before x f g w once =
      let h = θ.hash_hex tx_hash in
      let key = return_key θ store result.height in
      let tx = decode.withdraw_stake raw in
      let (s', p, stored) =
        parse_withdrawal-IsStored θ store (some status) client tx TxType.withdraw_stake_tx tx_hash
          stake fee result.height s1 f g w in
      let once1 =
        parse_txs-IsAtMostOnce client status result.height result.txs earlier h key s s1 ts keeps
          atomic before once in
      let start : 0 + length earlier ≡ length earlier = omega arith in
      rw
        (
          t,
          e,
          c,
          txs_left-append client status result.height result.txs 0 earlier (raw ∷ later) s s1 ts
              before,
          start,
          x,
          p,
        )
        (txs_left-stays θ store decode (IsOnce store h key) (put-IsOnce store keeps atomic h key)
          client status result.height result.txs (suc (length earlier)) later s'
          (
            _,
            stored.0,
            added-IsOnce store keeps (return_of θ tx tx_hash stake) (store.get key s1) once1,
          ))
