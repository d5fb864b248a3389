-- ===== src/Parse/Balance/SendBalance.antt =====
-- What the operations of a send transaction add up to.
use theta_rosetta_rpc_adapto.Prelude.{
  ℕ, zero, suc, ◌+◌, ◌*◌, ◌≡◌, refl, ◌↔◌, ◌⊎◌, inl, inr, String, Option, some, List, [], ◌∷◌,
  length, arith,
}
use theta_rosetta_rpc_adapto.Prelude.Int.{
  ℤ, pos, negsuc, ◌+ℤ◌, ◌-ℤ◌, neg, pos_part, neg_part, int_laws,
}
use theta_rosetta_rpc_adapto.Go.{ok}
use theta_rosetta_rpc_adapto.Names.{TxType}
use theta_rosetta_rpc_adapto.Wire.{Metadata, Operation, TxInput, TxOutput, SendTx, Theta}
use theta_rosetta_rpc_adapto.Parse.{Emitter, no_ops, emit}
use theta_rosetta_rpc_adapto.Parse.Transfers.{
  or_zero, send_metadata, theta_input_operation, tfuel_input_operation, send_input, send_inputs,
  theta_output_operation, tfuel_output_operation, send_output, send_outputs, send_fee_operation,
  send_operations, parse_send_tx,
}
use theta_rosetta_rpc_adapto.Parse.Contracts.{scale}
use theta_rosetta_rpc_adapto.Parse.Balance.{net, net-emit_same, net-emit_other, parts}

-- The sum of an amount over a list.
abbrev pub total {ℓ} : {A : Type ℓ} → (A → ℤ) → List A → ℤ
total f [] = pos 0
total f (x ∷ xs) = f x +ℤ total f xs

abbrev pub theta_in : TxInput → ℤ
theta_in input = or_zero input.coins.theta_wei

abbrev pub tfuel_in : TxInput → ℤ
tfuel_in input = or_zero input.coins.tfuel_wei

abbrev pub theta_out : TxOutput → ℤ
theta_out output = or_zero output.coins.theta_wei

abbrev pub tfuel_out : TxOutput → ℤ
tfuel_out output = or_zero output.coins.tfuel_wei

pub scale_parts :
    (n : ℕ) (z : ℤ) → pos_part (scale n z) + n * neg_part z ≡ neg_part (scale n z) + n * pos_part z
unfolding scale
scale_parts n z = ground arith

scale-eq : (n : ℕ) (z : ℤ) → scale n z ≡ z → (n ≡ 1) ⊎ (z ≡ pos 0)
scale-eq n (pos zero) h = inr refl
scale-eq zero (pos (suc k)) h = absurd (omega (arith, scale_parts 0 (pos (suc k)), parts h))
scale-eq zero (negsuc k) h = absurd (omega (arith, scale_parts 0 (negsuc k), parts h))
scale-eq (suc zero) z h = inl refl
scale-eq (suc (suc n)) (pos (suc k)) h =
    absurd (omega (arith, scale_parts (suc (suc n)) (pos (suc k)), parts h))
scale-eq (suc (suc n)) (negsuc k) h =
    absurd (omega (arith, scale_parts (suc (suc n)) (negsuc k), parts h))

scale-eq_iff : (n : ℕ) (z : ℤ) → (scale n z ≡ z) ↔ (n ≡ 1) ⊎ (z ≡ pos 0)
scale-eq_iff n z = (scale-eq n z, back)
  where
    back : (n ≡ 1) ⊎ (z ≡ pos 0) → scale n z ≡ z
    back (inl e) = rw e (omega (int_laws, scale_parts 1 z))
    back (inr e) = rw e (omega (int_laws, scale_parts n (pos 0)))

module _ (θ : Theta) (status : Option String) where
  send_input-net :
      (fee : ℤ) (input : TxInput) (e : Emitter)
      → (net "TFUEL" (send_input θ status fee input e).ops
          ≡ net "TFUEL" e.ops +ℤ (fee -ℤ tfuel_in input))
        × (net "THETA" (send_input θ status fee input e).ops ≡ net "THETA" e.ops -ℤ theta_in input)
  unfolding send_input
  send_input-net fee input e =
      let e1 = emit status (theta_input_operation θ status input e.next) e in
      let first = theta_input_operation θ status input e.next in
      let second = tfuel_input_operation θ status fee input e1.next in
      let tfuel_wei = neg (tfuel_in input -ℤ fee) in
      (
        omega (
          int_laws,
          parts (net-emit_other "TFUEL" status first e (neg (theta_in input)) refl refl),
          parts (net-emit_same "TFUEL" status second e1 tfuel_wei refl refl),
        ),
        omega (
          int_laws,
          parts (net-emit_same "THETA" status first e (neg (theta_in input)) refl refl),
          parts (net-emit_other "THETA" status second e1 tfuel_wei refl refl),
        ),
      )

  send_output-net :
      (output : TxOutput) (e : Emitter)
      → (net "TFUEL" (send_output θ status output e).ops ≡ net "TFUEL" e.ops +ℤ tfuel_out output)
        × (net "THETA" (send_output θ status output e).ops ≡ net "THETA" e.ops +ℤ theta_out output)
  unfolding send_output
  send_output-net output e =
      let e1 = emit status (theta_output_operation θ status output e.next) e in
      let first = theta_output_operation θ status output e.next in
      let second = tfuel_output_operation θ status output e1.next in
      (
        omega (
          int_laws,
          parts (net-emit_other "TFUEL" status first e (theta_out output) refl refl),
          parts (net-emit_same "TFUEL" status second e1 (tfuel_out output) refl refl),
        ),
        omega (
          int_laws,
          parts (net-emit_same "THETA" status first e (theta_out output) refl refl),
          parts (net-emit_other "THETA" status second e1 (tfuel_out output) refl refl),
        ),
      )

  send_inputs-net_tfuel :
      (fee : ℤ) (inputs : List TxInput) (e : Emitter)
      → net "TFUEL" (send_inputs θ status fee inputs e).ops +ℤ total tfuel_in inputs
        ≡ net "TFUEL" e.ops +ℤ scale (length inputs) fee
  unfolding send_inputs
  send_inputs-net_tfuel fee [] e = omega (int_laws, scale_parts 0 fee)
  send_inputs-net_tfuel fee (input ∷ inputs) e = omega (
    int_laws,
    scale_parts (suc (length inputs)) fee,
    scale_parts (length inputs) fee,
    parts (send_inputs-net_tfuel fee inputs (send_input θ status fee input e)),
    parts (send_input-net fee input e).0,
  )

  send_inputs-net_theta :
      (fee : ℤ) (inputs : List TxInput) (e : Emitter)
      → net "THETA" (send_inputs θ status fee inputs e).ops +ℤ total theta_in inputs
        ≡ net "THETA" e.ops
  unfolding send_inputs
  send_inputs-net_theta fee [] e = omega int_laws
  send_inputs-net_theta fee (input ∷ inputs) e = omega (
    int_laws,
    parts (send_inputs-net_theta fee inputs (send_input θ status fee input e)),
    parts (send_input-net fee input e).1,
  )

  send_outputs-net :
      (outputs : List TxOutput) (e : Emitter)
      → (net "TFUEL" (send_outputs θ status outputs e).ops
          ≡ net "TFUEL" e.ops +ℤ total tfuel_out outputs)
        × (net "THETA" (send_outputs θ status outputs e).ops
            ≡ net "THETA" e.ops +ℤ total theta_out outputs)
  unfolding send_outputs
  send_outputs-net [] e = (omega int_laws, omega int_laws)
  send_outputs-net (output ∷ outputs) e =
      let rest = send_outputs-net outputs (send_output θ status output e) in
      (
        omega (int_laws, parts (send_output-net output e).0, parts rest.0),
        omega (int_laws, parts (send_output-net output e).1, parts rest.1),
      )

  send_operations-net :
      (fee : ℤ) (tx : SendTx)
      → (net "TFUEL" (send_operations θ status fee tx) +ℤ total tfuel_in tx.inputs +ℤ fee
          ≡ total tfuel_out tx.outputs +ℤ scale (length tx.inputs) fee)
        × (net "THETA" (send_operations θ status fee tx) +ℤ total theta_in tx.inputs
            ≡ total theta_out tx.outputs)
  unfolding send_operations net
  send_operations-net fee tx =
      let ins = send_inputs θ status fee tx.inputs no_ops in
      let e = send_outputs θ status tx.outputs ins in
      let op = send_fee_operation θ status fee tx e.next in
      (
        omega (
          int_laws,
          parts (send_inputs-net_tfuel fee tx.inputs no_ops),
          parts (send_outputs-net tx.outputs ins).0,
          parts (net-emit_same "TFUEL" status op e (neg fee) refl refl),
        ),
        omega (
          int_laws,
          parts (send_inputs-net_theta fee tx.inputs no_ops),
          parts (send_outputs-net tx.outputs ins).1,
          parts (net-emit_other "THETA" status op e (neg fee) refl refl),
        ),
      )

  -- Of a send with a TFuel fee, the printed TFuel amounts, read back and summed, are the outputs
  -- less the inputs, plus the fee once for every input and minus it once; the Theta amounts are the
  -- outputs less the inputs.
  pub parse_send_tx-net :
      (tx : SendTx) (type : TxType) (fee : ℤ)
      → tx.fee.tfuel_wei ≡ some fee
      → (r : Metadata × List Operation) × (parse_send_tx θ status tx type ≡ ok r)
        × (net "TFUEL" r.1 +ℤ total tfuel_in tx.inputs +ℤ fee
            ≡ total tfuel_out tx.outputs +ℤ scale (length tx.inputs) fee)
        × (net "THETA" r.1 +ℤ total theta_in tx.inputs ≡ total theta_out tx.outputs)
  unfolding parse_send_tx
  parse_send_tx-net tx type fee e = (
    (send_metadata tx type, send_operations θ status fee tx),
    rw e,
    (send_operations-net fee tx).0,
    (send_operations-net fee tx).1,
  )

  -- For a send whose TFuel inputs are its outputs and fee, the printed TFuel amounts sum to minus
  -- the fee exactly when it has one input or the fee is zero.
  pub parse_send_tx-net_balanced_iff :
      (tx : SendTx) (type : TxType) (fee : ℤ)
      → tx.fee.tfuel_wei ≡ some fee
      → total tfuel_in tx.inputs ≡ total tfuel_out tx.outputs +ℤ fee
      → (r : Metadata × List Operation) × (parse_send_tx θ status tx type ≡ ok r)
        × ((net "TFUEL" r.1 ≡ neg fee) ↔ (length tx.inputs ≡ 1) ⊎ (fee ≡ pos 0))
  unfolding parse_send_tx
  parse_send_tx-net_balanced_iff tx type fee e balanced = (
    (send_metadata tx type, send_operations θ status fee tx),
    rw e,
    (
      λ h.
          (scale-eq_iff (length tx.inputs) fee).0
            (omega (int_laws, parts (send_operations-net fee tx).0, parts balanced, parts h)),
      λ h.
          let same = (scale-eq_iff (length tx.inputs) fee).1 h in
          omega (int_laws, parts (send_operations-net fee tx).0, parts balanced, parts same),
    ),
  )
