-- ===== src/Block/Left/Agreement.antt =====
-- The store that a block request leaves is the one that it answers with, where it answers.
use theta_rosetta_rpc_adapto.Prelude.{
  ℕ, suc, ◌+◌, ◌≡◌, ◌≢◌, refl, sym, subst, String, Option, none, some, List, [], ◌∷◌, Bool-cases,
  inl, inr,
}
use theta_rosetta_rpc_adapto.Digits.{Bytes}
use theta_rosetta_rpc_adapto.Go.{Go, ok, panic, ◌>>=◌, index, deref}
use theta_rosetta_rpc_adapto.Names.{TxType, block_status_string}
use theta_rosetta_rpc_adapto.Wire.{Hash, WithdrawStakeTx, Transaction, BalanceChange, Theta}
use theta_rosetta_rpc_adapto.Parse.Stakes.{parse_withdraw_stake_tx}
use theta_rosetta_rpc_adapto.Store.Interface.{Store}
use theta_rosetta_rpc_adapto.StakeService.{
  Stake, Client, ReturnStakeTxs, returned, failed, height_bytes, get_stake_for_tx,
}
use theta_rosetta_rpc_adapto.Transaction.{
  Decoder, extend_returns, return_of, put_or_panic, schedule_return, parse_withdrawal, parse_tx,
}
use theta_rosetta_rpc_adapto.Transaction.Dispatch.{Keeps, parse_tx-Keeps}
use theta_rosetta_rpc_adapto.Block.{
  Block, BlockResult, Tx, parse_txs, entry_transactions, parse_block,
}
use theta_rosetta_rpc_adapto.Block.Kept.{type_discrete}
use theta_rosetta_rpc_adapto.Block.Left.{
  on_panic, schedule_left, withdrawal_left, tx_left, txs_left, entries_left, block_left,
}

-- Where a call returns, the store behind its answer is this one.
abbrev pub Agrees : {A S : Type 0} → (A → S) → Go A → S → Type 0
Agrees behind (ok a) s = behind a ≡ s
Agrees behind panic s = Unit

then-Agrees :
    {A B S : Type 0} (behind : B → S) (s : S) (m : Go A) (f : A → Go B) (next : A → S)
    → ((a : A) → Agrees behind (f a) (next a))
    → Agrees behind (m >>= f) (on_panic s m next)
then-Agrees behind s (ok a) f next k = k a
then-Agrees behind s panic f next k = tt

-- A step that writes, in front of one that does not.
bind-Agrees :
    {A B S : Type 0} (before : A → S) (behind : B → S) (s : S) (m : Go A) (f : A → Go B)
    → Agrees before m s
    → ((a : A) → Agrees behind (f a) (before a))
    → Agrees behind (m >>= f) s
bind-Agrees before behind s (ok a) f e k = subst (Agrees behind (f a)) e (k a)
bind-Agrees before behind s panic f e k = tt

module _ (θ : Theta) (store : Store ReturnStakeTxs) where
  put_or_panic-Agrees :
      (key : Bytes) (rs : ReturnStakeTxs) (s : store.State)
      → Agrees (λ s'. s') (put_or_panic θ store key rs s) (store.put key rs s).1
  put_or_panic-Agrees key rs s = elim (Bool-cases (store.put key rs s).0) [
    | inl e ↦ rw e refl
    | inr e ↦ rw e tt
  ]

  schedule_return-Agrees :
      (client : Client) (tx : WithdrawStakeTx) (tx_hash : Hash) (height : ℕ) (s : store.State)
      → Agrees
          (λ s'. s')
          (schedule_return θ store client tx tx_hash height s)
          (schedule_left θ store client tx tx_hash height s)
  unfolding schedule_return schedule_left
  schedule_return-Agrees client tx tx_hash height s =
      then-Agrees (λ s'. s') s (get_stake_for_tx θ client tx height) _ _
        (λ outcome.
          then-Agrees {A = Option Stake} (λ s'. s') s
            (elim outcome [ returned found ↦ ok found | failed ↦ panic ]) _ _
            (λ found.
              then-Agrees {A = Stake} (λ s'. s') s (deref found) _ _
                (λ stake.
                  put_or_panic-Agrees (height_bytes (height + θ.return_locking_period))
                    (extend_returns (return_of θ tx tx_hash stake)
                      (store.get (height_bytes (height + θ.return_locking_period)) s))
                    s)))

  parse_withdrawal-Agrees :
      (status : Option String) (services : Option Client) (tx : WithdrawStakeTx) (type : TxType)
      (tx_hash : Hash) (height : ℕ) (s : store.State)
      → Agrees
          (λ r. r.1)
          (parse_withdrawal θ store status services tx type tx_hash height s)
          (withdrawal_left θ store status services tx type tx_hash height s)
  unfolding parse_withdrawal withdrawal_left
  parse_withdrawal-Agrees status services tx type tx_hash height s =
      then-Agrees (λ r. r.1) s (parse_withdraw_stake_tx θ status tx type) _ _
        (λ parsed.
          then-Agrees (λ r. r.1) s (deref services) _ _
            (λ client.
              bind-Agrees (λ s'. s') (λ r. r.1) _ _ _
                (schedule_return-Agrees client tx tx_hash height s) (λ s'. refl)))

  module _ (decode : Decoder) where
    tx_left_ne :
        (type : TxType) (raw : Bytes) (tx_hash : Hash) (status : Option String)
        (services : Option Client) (height : ℕ) (s : store.State)
        → type ≢ TxType.withdraw_stake_tx
        → tx_left θ store decode type raw tx_hash status services height s ≡ s
    unfolding tx_left
    tx_left_ne TxType.withdraw_stake_tx raw tx_hash status services height s n = absurd (n refl)
    tx_left_ne _ raw tx_hash status services height s n = refl

    Keeps-Agrees :
        (hash : String) (s : store.State) (r : Go (Transaction × store.State))
        → Keeps θ store hash s r
        → Agrees (λ r. r.1) r s
    Keeps-Agrees hash s (ok (t, s')) (a, same) = same
    Keeps-Agrees hash s panic keeps = tt

    pub parse_tx-Agrees :
        (type : TxType) (raw : Bytes) (tx_hash : Hash) (status : Option String) (gas : ℕ)
        (changes : Option (List BalanceChange)) (services : Option Client) (height : ℕ)
        (s : store.State)
        → Agrees
            (λ r. r.1)
            (parse_tx θ store decode type raw tx_hash status gas changes services height s)
            (tx_left θ store decode type raw tx_hash status services height s)
    unfolding parse_tx tx_left
    parse_tx-Agrees type raw tx_hash status gas changes services height s =
        elim (type_discrete type TxType.withdraw_stake_tx) [
          | yes p ↦
              subst
                (λ t.
                  Agrees (λ r. r.1)
                    (parse_tx θ store decode t raw tx_hash status gas changes services height s)
                    (tx_left θ store decode t raw tx_hash status services height s))
                (sym p)
                (parse_withdrawal-Agrees status services (decode.withdraw_stake raw)
                  TxType.withdraw_stake_tx tx_hash height s)
          | no n ↦ rw (tx_left_ne type raw tx_hash status services height s n) (
              Keeps-Agrees (θ.hash_string tx_hash) s _ (
                parse_tx-Keeps θ store decode type raw tx_hash status gas changes services height s
                  n))
        ]

    pub parse_txs-Agrees :
        (client : Client) (status : String) (height : ℕ) (txs : List Tx) (i : ℕ) (raws : List Bytes)
        (s : store.State)
        → Agrees
            (λ r. r.1)
            (parse_txs θ store decode client status height txs i raws s)
            (txs_left θ store decode client status height txs i raws s)
    unfolding parse_txs txs_left
    parse_txs-Agrees client status height txs i [] s = refl
    parse_txs-Agrees client status height txs i (raw ∷ raws) s =
        then-Agrees (λ r. r.1) s (index txs i) _ _
          (λ tx.
            then-Agrees (λ r. r.1) _ _ _ _
              (λ parsed.
                bind-Agrees (λ r. r.1) (λ r. r.1) _ _ _
                  (parse_txs-Agrees client status height txs (suc i) raws parsed.1) (λ rest. refl)))

    entry_transactions-Agrees :
        (client : Client) (status : String) (b : BlockResult) (raws : Option (List Bytes))
        (s : store.State)
        → Agrees
            (λ r. r.1)
            (entry_transactions θ store decode client status b raws s)
            (entries_left θ store decode client status b raws s)
    unfolding entry_transactions entries_left
    entry_transactions-Agrees client status b none s = refl
    entry_transactions-Agrees client status b (some raws) s =
        parse_txs-Agrees client status b.height b.txs 0 raws s

    -- The store behind the closure's answer.
    abbrev behind : store.State → Option (Block × store.State) → store.State
    behind s none = s
    behind s (some (b, s')) = s'

    -- Where the closure of `Block` answers with a block, `block_left` is the store that it answers
    -- with.
    parse_block-Agrees :
        (client : Client) (b : BlockResult) (s : store.State)
        → Agrees
            (behind s)
            (parse_block θ store decode client (some b) s)
            (block_left θ store decode client b s)
    unfolding parse_block block_left
    parse_block-Agrees client b s = then-Agrees (behind s) s (deref b.timestamp) _ _ (λ time.
        then-Agrees (behind s) s (block_status_string b.status) _ _ (λ status.
          bind-Agrees (λ r. r.1) (behind s) _ _ _
            (entry_transactions-Agrees client status b b.raws s) (λ entries. refl)))

    pub parse_block-block_left :
        (client : Client) (result : BlockResult) (b : Block) (s s' : store.State)
        → parse_block θ store decode client (some result) s ≡ ok (some (b, s'))
        → block_left θ store decode client result s ≡ s'
    parse_block-block_left client result b s s' e = sym (
        subst (λ m. Agrees (behind s) m (block_left θ store decode client result s)) e
          (parse_block-Agrees client result s))
