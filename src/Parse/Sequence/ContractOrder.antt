-- ===== src/Parse/Sequence/ContractOrder.antt =====
-- The operations of smart-contract transactions, as executed and as constructed.
use theta_rosetta_rpc_adapto.Prelude.{
  ℕ, ◌≡◌, ◌≢◌, refl, inl, inr, String, Bool, true, false, Option, none, some, List, [], ◌∷◌, arith,
  All, ◌⊎◌, Bool-cases, Option-cases, ltb, ◌==◌,
}
use theta_rosetta_rpc_adapto.Prelude.Int.{ℤ}
use theta_rosetta_rpc_adapto.Go.{Go, ok, panic, ◌>>=◌}
use theta_rosetta_rpc_adapto.Names.{TxType, TxOpType}
use theta_rosetta_rpc_adapto.Digits.{Bytes}
use theta_rosetta_rpc_adapto.Wire.{Metadata, Operation, SmartContractTx, BalanceChange, Theta}
use theta_rosetta_rpc_adapto.Parse.{Emitter, no_ops}
use theta_rosetta_rpc_adapto.Parse.Contracts.{
  parse_smart_contract_tx_for_construction, change_amount, contract_change, contract_changes,
  contract_fee, parse_smart_contract_tx,
}
use theta_rosetta_rpc_adapto.Parse.Sequence.{
  IsSequenced, IsRunning, Yields, emit-IsRunning, emit_nonzero-IsRunning,
}

-- What the code relies on: a negative change has its delta, and the gas has its price if some was
-- used. Both are pointers that it follows.
abbrev pub HasDelta : BalanceChange → Type 0
HasDelta change = change.is_negative ≡ true → change.delta ≢ none

-- A run that ends, in order.
abbrev Runs : Option String → Go Emitter → Type 0
Runs status (ok e) = IsRunning status e
Runs status panic = ⊥

Runs-bind :
    (status : Option String) (m : Go Emitter) (f : Emitter → Go Emitter)
    → Runs status m
    → ((e : Emitter) → IsRunning status e → Runs status (f e))
    → Runs status (m >>= f)
Runs-bind status (ok e) f h k = k e h
Runs-bind status panic f h k = elim h [ ]

Yields-bind :
    (status : Option String) (m : Go Emitter) (f : Emitter → Go (Metadata × List Operation))
    → Runs status m
    → ((e : Emitter) → IsRunning status e → Yields status (f e))
    → Yields status (m >>= f)
Yields-bind status (ok e) f h k = k e h
Yields-bind status panic f h k = elim h [ ]

change_amount_total :
    (negative : Bool) (delta : Option ℤ)
    → (negative ≡ true → delta ≢ none)
    → (amount : TxOpType × Bytes) × (change_amount negative delta ≡ ok amount)
unfolding change_amount
change_amount_total true none h = absurd (h refl refl)
change_amount_total true (some z) h = (_, refl)
change_amount_total false delta h = (_, refl)

module _ (θ : Theta) where
  -- The operations that are constructed for a contract call are in order, with no status.
  pub parse_smart_contract_tx_for_construction-IsSequenced :
      (tx : SmartContractTx) (type : TxType)
      → IsSequenced none 0 (parse_smart_contract_tx_for_construction θ tx type).1
  unfolding parse_smart_contract_tx_for_construction
  parse_smart_contract_tx_for_construction-IsSequenced tx type =
      (emit_nonzero-IsRunning _ _ _
        (emit_nonzero-IsRunning _ _ _
          (emit_nonzero-IsRunning _ _ _
            (emit_nonzero-IsRunning _ _ no_ops (tt, refl) (λ i z. refl) (λ i z. refl) (λ z h. tt))
            (λ i z. refl) (λ i z. refl) (λ z h. tt))
          (λ i z. refl) (λ i z. refl) (λ z h. tt))
        (λ i z. refl) (λ i z. refl) (λ z h. tt)).0

  module _ (status : Option String) where
    contract_change-Runs :
        (change : BalanceChange) (e : Emitter)
        → HasDelta change
        → IsRunning status e
        → Runs status (contract_change θ status change e)
    unfolding contract_change
    contract_change-Runs change e d h = elim (Bool-cases (ltb 1 change.token_type)) [
      | inl t ↦ rw t h
      | inr f ↦
          let (amount, q) = change_amount_total change.is_negative change.delta d in
          rw (f, q) (emit-IsRunning status _ e h refl refl (λ z. tt))
    ]

    contract_changes-Runs :
        (changes : List BalanceChange) (e : Emitter)
        → All HasDelta changes
        → IsRunning status e
        → Runs status (contract_changes θ status changes e)
    unfolding contract_changes
    contract_changes-Runs [] e d h = h
    contract_changes-Runs (change ∷ changes) e d h =
        Runs-bind status (contract_change θ status change e) _ (contract_change-Runs change e d.0 h)
          (λ e' h'. contract_changes-Runs changes e' d.1 h')

    contract_fee-Runs :
        (tx : SmartContractTx) (gas_used : ℕ) (e : Emitter)
        → (gas_used ≡ 0) ⊎ (tx.gas_price ≢ none)
        → IsRunning status e
        → Runs status (contract_fee θ status tx gas_used e)
    unfolding contract_fee
    contract_fee-Runs tx gas_used e p h = elim (Bool-cases (gas_used == 0)) [
      | inl t ↦ rw t h
      | inr f ↦ elim (Option-cases tx.gas_price) [
        | inr (price, q) ↦ rw (f, q) (emit-IsRunning status _ e h refl refl (λ z. tt))
        | inl q ↦ absurd (no_price f q p)
      ]
    ]
      where
        no_price :
            (gas_used == 0) ≡ false
            → tx.gas_price ≡ none
            → ¬ ((gas_used ≡ 0) ⊎ (tx.gas_price ≢ none))
        no_price f q (inl z) = ground arith
        no_price f q (inr n) = n q

    -- An executed contract call is parsed without a panic into operations in order, if the node
    -- sent its balance changes, every negative one with its delta, and a gas price where gas was
    -- used.
    pub parse_smart_contract_tx-Yields :
        (tx : SmartContractTx) (type : TxType) (gas_used : ℕ) (changes : List BalanceChange)
        → All HasDelta changes
        → (gas_used ≡ 0) ⊎ (tx.gas_price ≢ none)
        → Yields status (parse_smart_contract_tx θ status tx type gas_used (some changes))
    unfolding parse_smart_contract_tx
    parse_smart_contract_tx-Yields tx type gas_used changes d p =
        Yields-bind status (contract_changes θ status changes no_ops) _
          (contract_changes-Runs changes no_ops d (tt, refl))
          (λ e h.
            Yields-bind status (contract_fee θ status tx gas_used e) _
              (contract_fee-Runs tx gas_used e p h) (λ e' h'. h'.0))
