-- ===== src/Block/Kept.antt =====
-- What block requests leave in the store: a return that is stored stays stored.
use native.Mathlib.Decide.{ℕ_discrete}
use mathlib.Core.List.{List-discrete}
use theta_rosetta_rpc_adapto.Prelude.{
  ℕ, suc, ◌≡◌, sym, ap, ◌∙◌, subst, String, true, Option, none, some, List, [], ◌∷◌, ◌++◌,
  Bool-cases, inl, inr, ◌=ˢ◌,
}
use theta_rosetta_rpc_adapto.Digits.{Bytes}
use theta_rosetta_rpc_adapto.Go.{Go, ok, panic, ◌>>=◌, index, deref}
use theta_rosetta_rpc_adapto.Names.{TxType, block_status_string}
use theta_rosetta_rpc_adapto.Wire.{Hash, WithdrawStakeTx, Transaction, BalanceChange, Theta}
use theta_rosetta_rpc_adapto.Parse.Stakes.{parse_withdraw_stake_tx}
use theta_rosetta_rpc_adapto.Store.Interface.{Store}
use theta_rosetta_rpc_adapto.StakeService.{Client, ReturnStakeTx, ReturnStakeTxs, get_stake_for_tx}
use theta_rosetta_rpc_adapto.Transaction.{
  Decoder, holds_hash, extend_returns, return_of, put_or_panic, schedule_return, parse_withdrawal,
  parse_tx,
}
use theta_rosetta_rpc_adapto.Transaction.Returns.{IsStable, return_key}
use theta_rosetta_rpc_adapto.Transaction.Dispatch.{Keeps, parse_tx-Keeps}
use theta_rosetta_rpc_adapto.Block.{
  Block, BlockResult, Tx, or_zero_gas, parse_txs, entry_transactions, parse_block,
}

-- What holds of a value, if there is one.
abbrev pub After : {A : Type 0} → (A → Type 0) → Go A → Type 0
After P (ok a) = P a
After P panic = Unit

bind-After :
    {A B : Type 0} (P : A → Type 0) (Q : B → Type 0) (m : Go A) (f : A → Go B)
    → After P m
    → ((a : A) → P a → After Q (f a))
    → After Q (m >>= f)
bind-After P Q (ok a) f p k = k a p
bind-After P Q panic f p k = tt

then-After :
    {A B : Type 0} (Q : B → Type 0) (m : Go A) (f : A → Go B)
    → ((a : A) → After Q (f a))
    → After Q (m >>= f)
then-After Q (ok a) f k = k a
then-After Q panic f k = tt

holds_hash-append_any :
    (h : String) (rs : ReturnStakeTxs) (r : ReturnStakeTx)
    → holds_hash h rs ≡ true
    → holds_hash h (rs ++ r ∷ []) ≡ true
unfolding holds_hash
holds_hash-append_any h [] r e = absurd (cc e)
holds_hash-append_any h (q ∷ rs) r e = elim (Bool-cases (h =ˢ q.hash)) [
  | inl a ↦ rw a
  | inr a ↦ rw a (holds_hash-append_any h rs r (rw a at e))
]

holds_hash-extended :
    (h : String) (rs : ReturnStakeTxs) (r : ReturnStakeTx)
    → holds_hash h rs ≡ true
    → holds_hash h (extend_returns r (some rs)) ≡ true
holds_hash-extended h rs r e = elim (Bool-cases (holds_hash r.hash rs)) [
  | inl a ↦ rw a e
  | inr a ↦ rw a (holds_hash-append_any h rs r e)
]

pub type_discrete : Discrete TxType
type_discrete = hlevel (ℕ_discrete)

module _ (θ : Theta) (store : Store ReturnStakeTxs) where
  -- The returns under a key have one of this hash.
  abbrev pub Held : String → Bytes → store.State → Type 0
  Held h k s = (rs : ReturnStakeTxs) × (store.get k s ≡ some rs) × (holds_hash h rs ≡ true)

  written-Held :
      IsStable θ store
      → (h : String) (k key : Bytes) (r : ReturnStakeTx) (s : store.State) → Held h k s
      → (store.put key (extend_returns r (store.get key s)) s).0 ≡ true
      → Held h k (store.put key (extend_returns r (store.get key s)) s).1
  written-Held stable h k key r s (rs, e, t) w = elim (List-discrete ℕ_discrete key k) [
    | yes p ↦
        let at = ap (λ j. store.get j s) p ∙ e in
        let longer = extend_returns r (store.get key s) in
        (
          store.canon longer,
          ap (λ j. store.get j (store.put key longer s).1) (sym p)
              ∙ store.get-put_self key longer s w,
          stable.0 h longer
              ∙ ap (λ o. holds_hash h (extend_returns r o)) at
              ∙ holds_hash-extended h rs r t,
        )
    | no n ↦ (rs, store.get-put_ne key k (extend_returns r (store.get key s)) s n ∙ e, t)
  ]

  put_or_panic-Held :
      IsStable θ store
      → (h : String) (k key : Bytes) (r : ReturnStakeTx) (s : store.State) → Held h k s
      → After (Held h k) (put_or_panic θ store key (extend_returns r (store.get key s)) s)
  put_or_panic-Held stable h k key r s held =
      elim (Bool-cases (store.put key (extend_returns r (store.get key s)) s).0) [
        | inl w ↦ rw w (written-Held stable h k key r s held w)
        | inr w ↦ rw w tt
      ]

  schedule_return-Held :
      IsStable θ store
      → (h : String) (k : Bytes) (client : Client) (tx : WithdrawStakeTx) (tx_hash : Hash)
        (height : ℕ) (s : store.State)
      → Held h k s
      → After (Held h k) (schedule_return θ store client tx tx_hash height s)
  unfolding schedule_return
  schedule_return-Held stable h k client tx tx_hash height s held =
      then-After (Held h k) (get_stake_for_tx θ client tx height) _ (λ outcome.
        then-After (Held h k) _ _ (λ found. then-After (Held h k) (deref found) _ (λ stake.
          put_or_panic-Held stable h k (return_key θ store height) (return_of θ tx tx_hash stake) s
            held)))

  -- The store behind an answer.
  abbrev pub Leaves : {A : Type 0} → String → Bytes → Go (A × store.State) → Type 0
  Leaves h k = After (λ (t, s'). Held h k s')

  parse_withdrawal-Leaves :
      IsStable θ store
      → (h : String) (k : Bytes) (status : Option String) (services : Option Client)
        (tx : WithdrawStakeTx) (type : TxType) (tx_hash : Hash) (height : ℕ) (s : store.State)
      → Held h k s
      → Leaves h k (parse_withdrawal θ store status services tx type tx_hash height s)
  unfolding parse_withdrawal
  parse_withdrawal-Leaves stable h k status services tx type tx_hash height s held =
      then-After (λ (t, s'). Held h k s') (parse_withdraw_stake_tx θ status tx type) _
        (λ parsed.
          then-After (λ (t, s'). Held h k s') (deref services) _
            (λ client.
              bind-After (Held h k) (λ (t, s'). Held h k s')
                (schedule_return θ store client tx tx_hash height s) _
                (schedule_return-Held stable h k client tx tx_hash height s held)
                (λ s' held'. held')))

  Keeps-Leaves :
      (h : String) (k : Bytes) (hash : String) (s : store.State)
      (r : Go (Transaction × store.State))
      → Keeps θ store hash s r
      → Held h k s
      → Leaves h k r
  Keeps-Leaves h k hash s (ok (t, s')) (a, same) held = subst (Held h k) (sym same) held
  Keeps-Leaves h k hash s panic keeps held = tt

  module _ (decode : Decoder) where
    parse_tx-Leaves :
        IsStable θ store
        → (h : String) (k : Bytes) (type : TxType) (raw : Bytes) (tx_hash : Hash)
          (status : Option String) (gas : ℕ) (changes : Option (List BalanceChange))
          (services : Option Client) (height : ℕ) (s : store.State)
        → Held h k s
        → Leaves h k (parse_tx θ store decode type raw tx_hash status gas changes services height s)
    unfolding parse_tx
    parse_tx-Leaves stable h k type raw tx_hash status gas changes services height s held =
        elim (type_discrete type TxType.withdraw_stake_tx) [
          | yes p ↦
              subst
                (λ t.
                  Leaves h k
                    (parse_tx θ store decode t raw tx_hash status gas changes services height s))
                (sym p)
                (parse_withdrawal-Leaves stable h k status services (decode.withdraw_stake raw)
                  TxType.withdraw_stake_tx tx_hash height s held)
          | no n ↦
              Keeps-Leaves h k (θ.hash_string tx_hash) s _
                (parse_tx-Keeps θ store decode type raw tx_hash status gas changes services height s
                  n)
                held
        ]

    parse_txs-Leaves :
        IsStable θ store
        → (h : String) (k : Bytes) (client : Client) (status : String) (height : ℕ) (txs : List Tx)
          (i : ℕ) (raws : List Bytes) (s : store.State)
        → Held h k s
        → Leaves h k (parse_txs θ store decode client status height txs i raws s)
    unfolding parse_txs
    parse_txs-Leaves stable h k client status height txs i [] s held = held
    parse_txs-Leaves stable h k client status height txs i (raw ∷ raws) s held =
        then-After (λ (t, s'). Held h k s') (index txs i) _
          (λ tx.
            bind-After (λ (t, s'). Held h k s') (λ (t, s'). Held h k s')
              (parse_tx θ store decode tx.type raw tx.hash (some status) (or_zero_gas tx.gas_used)
                tx.balance_changes (some client) height s)
              _
              (parse_tx-Leaves stable h k tx.type raw tx.hash (some status)
                (or_zero_gas tx.gas_used) tx.balance_changes (some client) height s held)
              (λ parsed held1.
                bind-After (λ (t, s'). Held h k s') (λ (t, s'). Held h k s')
                  (parse_txs θ store decode client status height txs (suc i) raws parsed.1) _
                  (parse_txs-Leaves stable h k client status height txs (suc i) raws parsed.1 held1)
                  (λ rest held2. held2)))

    -- What the closure of `Block` leaves, where it answers.
    abbrev pub Answered : String → Bytes → Option (Block × store.State) → Type 0
    Answered h k none = Unit
    Answered h k (some (b, s')) = Held h k s'

    entries-Leaves :
        IsStable θ store
        → (h : String) (k : Bytes) (client : Client) (status : String) (b : BlockResult)
          (raws : Option (List Bytes)) (s : store.State)
        → Held h k s
        → Leaves h k (entry_transactions θ store decode client status b raws s)
    unfolding entry_transactions
    entries-Leaves stable h k client status b none s held = held
    entries-Leaves stable h k client status b (some raws) s held =
        parse_txs-Leaves stable h k client status b.height b.txs 0 raws s held

    pub parse_block-Answered :
        IsStable θ store
        → (h : String) (k : Bytes) (client : Client) (b : Option BlockResult) (s : store.State)
        → Held h k s
        → After (Answered h k) (parse_block θ store decode client b s)
    unfolding parse_block
    parse_block-Answered stable h k client none s held = tt
    parse_block-Answered stable h k client (some b) s held =
        then-After (Answered h k) (deref b.timestamp) _ (λ time.
          then-After (Answered h k) (block_status_string b.status) _ (λ status.
            bind-After (λ (t, s'). Held h k s') (Answered h k)
              (entry_transactions θ store decode client status b b.raws s) _
              (entries-Leaves stable h k client status b b.raws s held) (λ entries held1. held1)))
