-- ===== src/Parse/Sequence/TransferOrder.antt =====
-- The operations of coinbase, slash and send transactions are in order.
use theta_rosetta_rpc_adapto.Prelude.{
  ℕ, suc, ◌+◌, ◌*◌, ◌<◌, ◌≡◌, refl, inl, inr, ap, String, Option, none, some, List, [], ◌∷◌, length,
  arith,
}
use theta_rosetta_rpc_adapto.Prelude.Int.{ℤ, pos}
use theta_rosetta_rpc_adapto.Go.{panic}
use theta_rosetta_rpc_adapto.Names.{TxType}
use theta_rosetta_rpc_adapto.Wire.{TxInput, TxOutput, CoinbaseTx, SlashTx, SendTx, Theta}
use theta_rosetta_rpc_adapto.Parse.{Emitter, no_ops, emit}
use theta_rosetta_rpc_adapto.Parse.Transfers.{
  coinbase_outputs, parse_coinbase_tx, parse_slash_tx, send_input, send_inputs, send_output,
  send_outputs, send_operations, parse_send_tx,
}
use theta_rosetta_rpc_adapto.Parse.Sequence.{
  IsSequenced, IsRunning, Yields, stamp-IsPlaced, emit-IsRunning,
}

pos_suc : (n : ℕ) → pos (n + 1) ≡ pos (suc n)
pos_suc n = let e : n + 1 ≡ suc n = omega arith in ap pos e

module _ (θ : Theta) (status : Option String) where
  coinbase_outputs-IsSequenced :
      (i : ℕ) (outputs : List TxOutput)
      → IsSequenced status (suc i) (coinbase_outputs θ status i outputs)
  unfolding coinbase_outputs
  coinbase_outputs-IsSequenced i [] = tt
  coinbase_outputs-IsSequenced i (output ∷ outputs) = (
    stamp-IsPlaced status (suc i) _ (pos_suc i) (inl refl) (omega arith, tt),
    let e : i + 1 ≡ suc i = omega arith in rw e (coinbase_outputs-IsSequenced (suc i) outputs),
  )

  -- The operations of a coinbase transaction are numbered from 0 without a gap, all carry the given
  -- status, and each relates to earlier operations alone.
  pub parse_coinbase_tx-IsSequenced :
      (tx : CoinbaseTx) (type : TxType)
      → IsSequenced status 0 (parse_coinbase_tx θ status tx type).1
  unfolding parse_coinbase_tx
  parse_coinbase_tx-IsSequenced tx type =
      (stamp-IsPlaced status 0 _ refl (inl refl) tt, coinbase_outputs-IsSequenced 0 tx.outputs)

  pub parse_slash_tx-IsSequenced :
      (tx : SlashTx) (type : TxType) → IsSequenced status 0 (parse_slash_tx θ status tx type).1
  unfolding parse_slash_tx
  parse_slash_tx-IsSequenced tx type = (stamp-IsPlaced status 0 _ refl (inr refl) tt, tt)

  send_inputs-IsRunning :
      (fee : ℤ) (inputs : List TxInput) (e : Emitter)
      → IsRunning status e
      → IsRunning status (send_inputs θ status fee inputs e)
  unfolding send_inputs send_input
  send_inputs-IsRunning fee [] e h = h
  send_inputs-IsRunning fee (input ∷ inputs) e h = send_inputs-IsRunning fee inputs _ (
      emit-IsRunning status _ _ (emit-IsRunning status _ e h refl refl (λ z. tt)) refl refl
        (λ z. tt))

  pub send_inputs-next :
      (fee : ℤ) (inputs : List TxInput) (e : Emitter)
      → (send_inputs θ status fee inputs e).next ≡ e.next + 2 * length inputs
  unfolding send_inputs send_input emit
  send_inputs-next fee [] e = omega arith
  send_inputs-next fee (input ∷ inputs) e = omega (arith, send_inputs-next fee inputs _)

  send_outputs-IsRunning :
      (outputs : List TxOutput) (e : Emitter)
      → IsRunning status e
      → 0 < e.next
      → IsRunning status (send_outputs θ status outputs e)
  unfolding send_outputs send_output emit
  send_outputs-IsRunning [] e h p = h
  send_outputs-IsRunning (output ∷ outputs) e h p =
      send_outputs-IsRunning outputs _
        (emit-IsRunning status _ _
          (emit-IsRunning status _ e h refl refl (λ z. absurd (omega arith))) refl refl
          (λ z. absurd (omega arith)))
        (omega arith)

  send_operations-IsSequenced :
      (fee : ℤ) (tx : SendTx)
      → 0 < length tx.inputs
      → IsSequenced status 0 (send_operations θ status fee tx)
  unfolding send_operations
  send_operations-IsSequenced fee tx p =
      (emit-IsRunning status _ _
        (send_outputs-IsRunning tx.outputs _ (send_inputs-IsRunning fee tx.inputs no_ops (tt, refl))
          (omega (arith, send_inputs-next fee tx.inputs no_ops)))
        refl refl (λ z. tt)).0

  -- A send transaction with a TFuel fee and at least one input is parsed without a panic into
  -- operations that are numbered from 0 without a gap, all carry the given status, and relate to
  -- earlier operations alone; without a fee it panics.
  pub parse_send_tx-Yields :
      (tx : SendTx) (type : TxType)
      → 0 < length tx.inputs
      → ((fee : ℤ) → tx.fee.tfuel_wei ≡ some fee → Yields status (parse_send_tx θ status tx type))
        × (tx.fee.tfuel_wei ≡ none → parse_send_tx θ status tx type ≡ panic)
  unfolding parse_send_tx
  parse_send_tx-Yields tx type p = (λ fee e. rw e (send_operations-IsSequenced fee tx p), λ e. rw e)
