-- ===== src/Parse/Balance/ContractBalance.antt =====
-- What the operations of an executed contract call add up to.
use theta_rosetta_rpc_adapto.Prelude.{
  ℕ, zero, suc, ◌≡◌, ◌≢◌, refl, ap, ◌∙◌, Bool-cases, Option-cases, ◌⊎◌, inl, inr, String, Bool,
  true, false, Option, none, some, List, [], ◌∷◌, ltb, ◌==◌, if◌then◌else◌, All, arith,
}
use theta_rosetta_rpc_adapto.Prelude.Int.{ℤ, pos, ◌+ℤ◌, ◌-ℤ◌, neg, int_laws}
use theta_rosetta_rpc_adapto.Digits.{Bytes, big_pointer_string, big_string, set_string}
use theta_rosetta_rpc_adapto.Digits.RoundTrip.{set_string-big_string}
use theta_rosetta_rpc_adapto.Go.{ok}
use theta_rosetta_rpc_adapto.Names.{TxType, TxOpType}
use theta_rosetta_rpc_adapto.Wire.{
  Address, Metadata, Operation, SmartContractTx, BalanceChange, Theta,
}
use theta_rosetta_rpc_adapto.Parse.{Emitter, no_ops, emit}
use theta_rosetta_rpc_adapto.Parse.Contracts.{
  scale, change_amount, change_operation, gas_operation, contract_change, contract_changes,
  contract_fee, contract_metadata, parse_smart_contract_tx,
}
use theta_rosetta_rpc_adapto.Parse.Sequence.ContractOrder.{HasDelta}
use theta_rosetta_rpc_adapto.Parse.Balance.{or_none, contribution, net, net-emit, parts}
use theta_rosetta_rpc_adapto.Parse.Balance.SendBalance.{total, scale_parts}

-- The change that an entry records: its delta, with a minus if it is negative.
abbrev pub signed_delta : Bool → Option ℤ → ℤ
signed_delta true delta = neg (or_none delta)
signed_delta false delta = or_none delta

-- The change of token `token`.
abbrev pub effect : ℕ → BalanceChange → ℤ
effect token change =
    if change.token_type == token then signed_delta change.is_negative change.delta else pos 0

-- The value that is printed for a change reads back as the change.
change_amount-signed_delta :
    (negative : Bool) (delta : Option ℤ)
    → (negative ≡ true → delta ≢ none)
    → (amount : TxOpType × Bytes) × (change_amount negative delta ≡ ok amount)
      × (or_none (set_string amount.1) ≡ signed_delta negative delta)
unfolding change_amount big_pointer_string set_string
change_amount-signed_delta true none h = absurd (h refl refl)
change_amount-signed_delta true (some z) h = (
  (TxOpType.smart_contract_tx_from, big_string (neg z)),
  refl,
  ap or_none (set_string-big_string (neg z)),
)
change_amount-signed_delta false none h =
    ((TxOpType.smart_contract_tx_to, big_pointer_string none), refl, refl)
change_amount-signed_delta false (some z) h =
    ((TxOpType.smart_contract_tx_to, big_string z), refl, ap or_none (set_string-big_string z))

-- What an emitter's operations gained, in both currencies.
abbrev Gains : Emitter → Emitter → ℤ → ℤ → Type 0
Gains e e' theta tfuel =
    (net "THETA" e'.ops ≡ net "THETA" e.ops +ℤ theta)
    × (net "TFUEL" e'.ops ≡ net "TFUEL" e.ops +ℤ tfuel)

module _ (θ : Theta) (status : Option String) where
  emit-Gains :
      (op : Operation) (e : Emitter) {theta tfuel : ℤ}
      → contribution "THETA" op.amount ≡ theta
      → contribution "TFUEL" op.amount ≡ tfuel
      → Gains e (emit status op e) theta tfuel
  emit-Gains op e p q = (
    net-emit "THETA" status op e ∙ ap (λ z. net "THETA" e.ops +ℤ z) p,
    net-emit "TFUEL" status op e ∙ ap (λ z. net "TFUEL" e.ops +ℤ z) q,
  )

  -- By the token's number; the fields are given apart.
  change-Gains :
      (token : ℕ) (address : Address) (negative : Bool) (delta : Option ℤ) (e : Emitter)
      → (negative ≡ true → delta ≢ none)
      → let change : BalanceChange = record {
        address = address;
        token_type = token;
        is_negative = negative;
        delta = delta;
      } in
        (e' : Emitter) × (contract_change θ status change e ≡ ok e')
        × Gains e e' (effect 0 change) (effect 1 change)
  unfolding contract_change
  change-Gains zero address negative delta e h =
      let (amount, q, r) = change_amount-signed_delta negative delta h in
      let change : BalanceChange = record {
        address = address;
        token_type = 0;
        is_negative = negative;
        delta = delta;
      } in
      (
        emit status (change_operation θ change amount e.next) e,
        rw q,
        emit-Gains (change_operation θ change amount e.next) e r refl,
      )
  change-Gains (suc zero) address negative delta e h =
      let (amount, q, r) = change_amount-signed_delta negative delta h in
      let change : BalanceChange = record {
        address = address;
        token_type = 1;
        is_negative = negative;
        delta = delta;
      } in
      (
        emit status (change_operation θ change amount e.next) e,
        rw q,
        emit-Gains (change_operation θ change amount e.next) e refl r,
      )
  change-Gains (suc (suc n)) address negative delta e h =
      let skipped : ltb 1 (suc (suc n)) ≡ true = ground arith in
      let no_theta : (suc (suc n) == 0) ≡ false = ground arith in
      let no_tfuel : (suc (suc n) == 1) ≡ false = ground arith in
      (e, rw skipped, (rw no_theta (omega int_laws), rw no_tfuel (omega int_laws)))

  contract_changes_gain :
      (changes : List BalanceChange) (e : Emitter)
      → All HasDelta changes
      → (e' : Emitter) × (contract_changes θ status changes e ≡ ok e')
        × (net "THETA" e'.ops ≡ net "THETA" e.ops +ℤ total (effect 0) changes)
        × (net "TFUEL" e'.ops ≡ net "TFUEL" e.ops +ℤ total (effect 1) changes)
  unfolding contract_changes
  contract_changes_gain [] e h = (e, refl, omega int_laws, omega int_laws)
  contract_changes_gain (change ∷ changes) e h =
      let (e1, q, g) =
        change-Gains change.token_type change.address change.is_negative change.delta e h.0 in
      let (e2, r, theta, tfuel) = contract_changes_gain changes e1 h.1 in
      (
        e2,
        rw q r,
        omega (int_laws, parts g.0, parts theta),
        omega (int_laws, parts g.1, parts tfuel),
      )

  contract_fee-Gains :
      (tx : SmartContractTx) (gas_used : ℕ) (e : Emitter)
      → (gas_used ≡ 0) ⊎ (tx.gas_price ≢ none)
      → (e' : Emitter) × (contract_fee θ status tx gas_used e ≡ ok e')
        × Gains e e' (pos 0) (neg (scale gas_used (or_none tx.gas_price)))
  unfolding contract_fee
  contract_fee-Gains tx gas_used e p = elim (Bool-cases (gas_used == 0)) [
    | inl t ↦
        let unused : gas_used ≡ 0 = ground arith in
        (
          e,
          rw t,
          (omega int_laws, rw unused (omega (int_laws, scale_parts 0 (or_none tx.gas_price)))),
        )
    | inr f ↦ elim (Option-cases tx.gas_price) [
      | inr (price, q) ↦ (
        emit status (gas_operation θ tx gas_used price e.next) e,
        rw (f, q),
        rw q (
            emit-Gains (gas_operation θ tx gas_used price e.next) e refl
              (ap or_none (set_string-big_string (neg (scale gas_used price))))),
      )
      | inl q ↦ absurd (no_price f q p)
    ]
  ]
    where
      no_price :
          (gas_used == 0) ≡ false → tx.gas_price ≡ none → ¬ ((gas_used ≡ 0) ⊎ (tx.gas_price ≢ none))
      no_price f q (inl z) = ground arith
      no_price f q (inr n) = n q

  -- The printed amounts of an executed contract call, read back and summed, are for Theta the
  -- signed balance changes of token 0, and for TFuel those of token 1 less the gas used times its
  -- price, if every negative change has its delta and the gas its price.
  pub parse_smart_contract_tx-net :
      (tx : SmartContractTx) (type : TxType) (gas_used : ℕ) (changes : List BalanceChange)
      → All HasDelta changes
      → (gas_used ≡ 0) ⊎ (tx.gas_price ≢ none)
      → (r : Metadata × List Operation) × (parse_smart_contract_tx θ status tx type gas_used
            (some changes)
          ≡ ok r)
        × (net "THETA" r.1 ≡ total (effect 0) changes)
        × (net "TFUEL" r.1 ≡ total (effect 1) changes -ℤ scale gas_used (or_none tx.gas_price))
  unfolding parse_smart_contract_tx net
  parse_smart_contract_tx-net tx type gas_used changes h p =
      let (e1, q, theta, tfuel) = contract_changes_gain changes no_ops h in
      let (e2, r, g) = contract_fee-Gains tx gas_used e1 p in
      (
        (contract_metadata tx type, e2.ops),
        rw (q, r),
        omega (int_laws, parts theta, parts g.0),
        omega (int_laws, parts tfuel, parts g.1),
      )
