-- ===== src/Transaction/Returns.antt =====
-- What a parsed withdrawal leaves in the store of returns.
use Prim.Native.String
use theta_rosetta_rpc_adapto.Prelude.{
  ℕ, ◌+◌, ◌≡◌, ◌≢◌, refl, ◌∙◌, ap, subst, sym, String, true, Option, none, some, [], ◌∷◌, ◌++◌,
  ◌=ˢ◌, Bool-cases, inl, inr, ◌⊎◌, eq_iff,
}
use theta_rosetta_rpc_adapto.Prelude.Int.{ℤ}
use theta_rosetta_rpc_adapto.Digits.{Bytes}
use theta_rosetta_rpc_adapto.Go.{Go, ok, panic, ◌>>=◌}
use theta_rosetta_rpc_adapto.Names.{TxType}
use theta_rosetta_rpc_adapto.Wire.{Hash, WithdrawStakeTx, Theta}
use theta_rosetta_rpc_adapto.Parse.{fee_operation, set_status}
use theta_rosetta_rpc_adapto.Parse.Stakes.{parse_withdraw_stake_tx, stake_metadata}
use theta_rosetta_rpc_adapto.Store.Interface.{Store}
use theta_rosetta_rpc_adapto.StakeService.{
  Stake, Client, ReturnStakeTx, ReturnStakeTxs, returned, failed, height_bytes, get_stake_for_tx,
}
use theta_rosetta_rpc_adapto.Transaction.{
  holds_hash, extend_returns, return_of, put_or_panic, schedule_return, parse_withdrawal,
}

module _ (θ : Theta) (store : Store ReturnStakeTxs) where
  abbrev pub return_key : ℕ → Bytes
  return_key height = height_bytes (height + θ.return_locking_period)

  -- The returns of the height at which the stake comes back, with this one among them.
  abbrev pub scheduled : WithdrawStakeTx → Hash → Stake → ℕ → store.State → ReturnStakeTxs
  scheduled tx tx_hash stake height s =
      extend_returns (return_of θ tx tx_hash stake) (store.get (return_key height) s)

  -- A store in which one key holds given returns and every other key is as before.
  abbrev pub IsStored : Bytes → ReturnStakeTxs → store.State → store.State → Type 0
  IsStored key rs s s' =
      (store.get key s' ≡ some (store.canon rs))
      × ((j : Bytes) → key ≢ j → store.get j s' ≡ store.get j s)

  schedule_return-eq :
      (client : Client) (tx : WithdrawStakeTx) (tx_hash : Hash) (stake : Stake) (height : ℕ)
      (s : store.State)
      → get_stake_for_tx θ client tx height ≡ ok (returned (some stake))
      → schedule_return θ store client tx tx_hash height s
        ≡ put_or_panic θ store (return_key height) (scheduled tx tx_hash stake height s) s
  unfolding schedule_return
  schedule_return-eq client tx tx_hash stake height s e = rw e

  put_or_panic-IsStored :
      (key : Bytes) (rs : ReturnStakeTxs) (s : store.State)
      → (store.put key rs s).0 ≡ true
      → (s' : store.State) × (put_or_panic θ store key rs s ≡ ok s') × IsStored key rs s s'
  put_or_panic-IsStored key rs s e = (
    (store.put key rs s).1,
    rw e,
    (store.get-put_self key rs s e, λ j n. store.get-put_ne key j rs s n),
  )

  -- Where the stake is found and the store can be written, a withdrawal at a height is stored under
  -- the key of the height at which its stake comes back, with the stake's amount as its coins:
  -- behind what is stored there, unless its hash is there already. Every other key stays as it was.
  pub schedule_return-IsStored :
      (client : Client) (tx : WithdrawStakeTx) (tx_hash : Hash) (stake : Stake) (height : ℕ)
      (s : store.State)
      → get_stake_for_tx θ client tx height ≡ ok (returned (some stake))
      → (store.put (return_key height) (scheduled tx tx_hash stake height s) s).0 ≡ true
      → (s' : store.State) × (schedule_return θ store client tx tx_hash height s ≡ ok s')
        × IsStored (return_key height) (scheduled tx tx_hash stake height s) s s'
  schedule_return-IsStored client tx tx_hash stake height s e w =
      subst
        (λ (m : Go store.State).
          (s' : store.State) × (m ≡ ok s')
          × IsStored (return_key height) (scheduled tx tx_hash stake height s) s s')
        (sym (schedule_return-eq client tx tx_hash stake height s e))
        (put_or_panic-IsStored (return_key height) (scheduled tx tx_hash stake height s) s w)

  -- What a withdrawal comes without: the services, the stake, or an answer.
  abbrev pub IsUnservable : Option Client → WithdrawStakeTx → ℕ → Type 0
  IsUnservable none tx height = Unit
  IsUnservable (some client) tx height =
      (get_stake_for_tx θ client tx height ≡ ok (returned none))
      ⊎ (get_stake_for_tx θ client tx height ≡ ok failed)

  schedule_return-eq-panic :
      (client : Client) (tx : WithdrawStakeTx) (tx_hash : Hash) (height : ℕ) (s : store.State)
      → IsUnservable (some client) tx height
      → schedule_return θ store client tx tx_hash height s ≡ panic
  unfolding schedule_return
  schedule_return-eq-panic client tx tx_hash height s (inl e) = rw e
  schedule_return-eq-panic client tx tx_hash height s (inr e) = rw e

  parsed-eq-panic :
      {A B : Type 0} (m : Go A) (f : A → Go B) → ((a : A) → f a ≡ panic) → (m >>= f) ≡ panic
  parsed-eq-panic (ok a) f h = h a
  parsed-eq-panic panic f h = refl

  -- A withdrawal that comes without the services, as from the endpoints for one transaction, or
  -- whose stake the node does not answer with or does not have, is a panic whatever the store
  -- holds.
  pub parse_withdrawal-eq-panic :
      (status : Option String) (services : Option Client) (tx : WithdrawStakeTx) (type : TxType)
      (tx_hash : Hash) (height : ℕ) (s : store.State)
      → IsUnservable services tx height
      → parse_withdrawal θ store status services tx type tx_hash height s ≡ panic
  unfolding parse_withdrawal
  parse_withdrawal-eq-panic status none tx type tx_hash height s h =
      parsed-eq-panic (parse_withdraw_stake_tx θ status tx type) _ (λ p. refl)
  parse_withdrawal-eq-panic status (some client) tx type tx_hash height s h =
      parsed-eq-panic (parse_withdraw_stake_tx θ status tx type) _
        (λ p. rw (schedule_return-eq-panic client tx tx_hash height s h))

  bind-eq : {A B : Type 0} (m : Go A) (f : A → Go B) {a : A} → m ≡ ok a → (m >>= f) ≡ f a
  bind-eq m f e = ap (λ n. n >>= f) e

  parsed_withdrawal :
      (status : Option String) (tx : WithdrawStakeTx) (type : TxType) (fee : ℤ)
      → tx.fee.tfuel_wei ≡ some fee
      → parse_withdraw_stake_tx θ status tx type
        ≡ ok (
          stake_metadata tx type,
          set_status status (fee_operation 0 (θ.address_string tx.source.address) fee) ∷ [],
        )
  unfolding parse_withdraw_stake_tx
  parsed_withdrawal status tx type fee f = rw f

  -- A withdrawal that has a fee, whose stake is found and whose return can be written is parsed:
  -- its one operation is the fee's, its hash is derived from the ledger's, and its return is
  -- stored.
  pub parse_withdrawal-IsStored :
      (status : Option String) (client : Client) (tx : WithdrawStakeTx) (type : TxType)
      (tx_hash : Hash) (stake : Stake) (fee : ℤ) (height : ℕ) (s : store.State)
      → tx.fee.tfuel_wei ≡ some fee
      → get_stake_for_tx θ client tx height ≡ ok (returned (some stake))
      → (store.put (return_key height) (scheduled tx tx_hash stake height s) s).0 ≡ true
      → (s' : store.State) × (parse_withdrawal θ store status (some client) tx type tx_hash height s
          ≡ ok (
            record {
              hash = θ.hash_hex (
                  θ.keccak256
                    (String.◌++◌ "stake_withdraw" (String.◌++◌ "_" (θ.hash_hex tx_hash))));
              metadata = stake_metadata tx type;
              operations =
                  set_status status (fee_operation 0 (θ.address_string tx.source.address) fee) ∷ [];
            },
            s',
          ))
        × IsStored (return_key height) (scheduled tx tx_hash stake height s) s s'
  unfolding parse_withdrawal
  parse_withdrawal-IsStored status client tx type tx_hash stake fee height s f e w =
      let (s', r, stored) = schedule_return-IsStored client tx tx_hash stake height s e w in
      (s', bind-eq _ _ (parsed_withdrawal status tx type fee f) ∙ bind-eq _ _ r, stored)

  -- What is read back has the hashes that were written, and reading it back once more changes nothing
  -- (RLP gives a nil amount back as zero, say).
  abbrev pub IsStable : Type 0
  IsStable =
      ((hash : String) (rs : ReturnStakeTxs)
        → holds_hash hash (store.canon rs) ≡ holds_hash hash rs)
      × ((rs : ReturnStakeTxs) → store.canon (store.canon rs) ≡ store.canon rs)

  holds_hash-append :
      (r : ReturnStakeTx) (rs : ReturnStakeTxs) → holds_hash r.hash (rs ++ r ∷ []) ≡ true
  unfolding holds_hash
  holds_hash-append r [] = rw ((eq_iff r.hash r.hash).1 refl)
  holds_hash-append r (q ∷ rs) = elim (Bool-cases (r.hash =ˢ q.hash)) [
    | inl e ↦ rw e
    | inr n ↦ rw n (holds_hash-append r rs)
  ]

  pub holds_hash-extend_returns :
      (r : ReturnStakeTx) (before : Option ReturnStakeTxs)
      → holds_hash r.hash (extend_returns r before) ≡ true
  holds_hash-extend_returns r none = holds_hash-append r []
  holds_hash-extend_returns r (some rs) = elim (Bool-cases (holds_hash r.hash rs)) [
    | inl e ↦ rw (e, e)
    | inr n ↦ rw n (holds_hash-append r rs)
  ]
