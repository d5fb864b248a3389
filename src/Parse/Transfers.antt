-- ===== src/Parse/Transfers.antt =====
-- `ParseCoinbaseTx`, `ParseSlashTx` and `ParseSendTx` of common/utils.go.
use theta_rosetta_rpc_adapto.Prelude.{ℕ, ◌+◌, String, Option, none, some, List, [], ◌∷◌}
use theta_rosetta_rpc_adapto.Prelude.Int.{ℤ, pos, neg, ◌-ℤ◌}
use theta_rosetta_rpc_adapto.Digits.{Bytes, big_string, big_pointer_string}
use theta_rosetta_rpc_adapto.Go.{Go, ok, ◌>>=◌, deref}
use theta_rosetta_rpc_adapto.Names.{TxType, TxOpType, get_theta_currency, get_tfuel_currency}
use theta_rosetta_rpc_adapto.Wire.{
  Metadata, Value, Operation, TxInput, TxOutput, CoinbaseTx, SlashTx, SendTx, Theta,
}
use theta_rosetta_rpc_adapto.Parse.{Emitter, no_ops, operation, input_metadata, set_status, emit}

abbrev pub zero_string : Bytes
zero_string = 48 ∷ []

-- A nil amount is replaced by a new zero.
abbrev pub or_zero : Option ℤ → ℤ
or_zero none = pos 0
or_zero (some z) = z

abbrev pub send_metadata : SendTx → TxType → Metadata
send_metadata tx type = ("type", Value.tx_type type) ∷ ("fee", Value.coins tx.fee) ∷ []

module _ (θ : Theta) (status : Option String) where
  -- The loop over the outputs; output `i` has index `i + 1`.
  unfoldable pub coinbase_outputs : ℕ → List TxOutput → List Operation
  coinbase_outputs i [] = []
  coinbase_outputs i (output ∷ outputs) =
      set_status status
        (record (operation (i + 1) TxOpType.coinbase_tx_output (θ.address_string output.address)
          (big_pointer_string output.coins.tfuel_wei) get_tfuel_currency []) {
            related = pos 0 ∷ [];
          })
      ∷ coinbase_outputs (i + 1) outputs

  unfoldable pub parse_coinbase_tx : CoinbaseTx → TxType → Metadata × List Operation
  unfolding coinbase_outputs
  parse_coinbase_tx tx type = (
    ("type", Value.tx_type type) ∷ ("block_height", Value.number tx.block_height) ∷ [],
    set_status status (
          operation 0 TxOpType.coinbase_tx_proposer (θ.address_string tx.proposer.address)
            zero_string get_tfuel_currency (input_metadata θ tx.proposer))
        ∷ coinbase_outputs 0 tx.outputs,
  )

  unfoldable pub parse_slash_tx : SlashTx → TxType → Metadata × List Operation
  parse_slash_tx tx type = (
    ("type", Value.tx_type type)
        ∷ ("slashed_address", Value.number tx.slashed_address)
        ∷ ("reserve_sequence", Value.number tx.reserve_sequence)
        ∷ ("slash_proof", Value.bytes tx.slash_proof)
        ∷ [],
    set_status status
          (record (operation 0 TxOpType.slash_tx_proposer (θ.address_string tx.proposer.address)
            zero_string get_theta_currency (input_metadata θ tx.proposer)) { status = status })
        ∷ [],
  )

  -- An input's Theta, negated, and its TFuel less the fee, negated.
  abbrev pub theta_input_operation : TxInput → ℕ → Operation
  theta_input_operation input i =
      operation i TxOpType.send_tx_input (θ.address_string input.address)
        (big_string (neg (or_zero input.coins.theta_wei))) get_theta_currency
        (input_metadata θ input)

  abbrev pub tfuel_input_operation : ℤ → TxInput → ℕ → Operation
  tfuel_input_operation fee input i =
      operation i TxOpType.send_tx_input (θ.address_string input.address)
        (big_string (neg (or_zero input.coins.tfuel_wei -ℤ fee))) get_tfuel_currency
        (input_metadata θ input)

  -- The body of the loop over the inputs.
  unfoldable pub send_input : ℤ → TxInput → Emitter → Emitter
  send_input fee input e =
      let e1 = emit status (theta_input_operation input e.next) e in
      emit status (tfuel_input_operation fee input e1.next) e1

  unfoldable pub send_inputs : ℤ → List TxInput → Emitter → Emitter
  send_inputs fee [] e = e
  send_inputs fee (input ∷ inputs) e = send_inputs fee inputs (send_input fee input e)

  -- `inputAddr`: the address of the last input, "" where there is none.
  unfoldable pub last_address : String → List TxInput → String
  last_address addr [] = addr
  last_address addr (input ∷ inputs) = last_address (θ.address_string input.address) inputs

  -- An output's amounts; each operation starts out related to `i - 1`.
  abbrev pub theta_output_operation : TxOutput → ℕ → Operation
  theta_output_operation output i =
      record (operation i TxOpType.send_tx_output (θ.address_string output.address)
        (big_string (or_zero output.coins.theta_wei)) get_theta_currency []) {
          related = (pos i -ℤ pos 1) ∷ [];
        }

  abbrev pub tfuel_output_operation : TxOutput → ℕ → Operation
  tfuel_output_operation output i =
      record (operation i TxOpType.send_tx_output (θ.address_string output.address)
        (big_string (or_zero output.coins.tfuel_wei)) get_tfuel_currency []) {
          related = (pos i -ℤ pos 1) ∷ [];
        }

  -- The body of the loop over the outputs.
  unfoldable pub send_output : TxOutput → Emitter → Emitter
  send_output output e =
      let e1 = emit status (theta_output_operation output e.next) e in
      emit status (tfuel_output_operation output e1.next) e1

  unfoldable pub send_outputs : List TxOutput → Emitter → Emitter
  send_outputs [] e = e
  send_outputs (output ∷ outputs) e = send_outputs outputs (send_output output e)

  abbrev pub send_fee_operation : ℤ → SendTx → ℕ → Operation
  send_fee_operation fee tx i =
      operation i TxOpType.tx_fee (last_address "" tx.inputs) (big_string (neg fee))
        get_tfuel_currency []

  -- The operations for a fee that is there: the fee's operation is the last one.
  unfoldable pub send_operations : ℤ → SendTx → List Operation
  unfolding send_inputs send_input send_outputs send_output last_address emit
  send_operations fee tx =
      let e = send_outputs tx.outputs (send_inputs fee tx.inputs no_ops) in
      (emit status (send_fee_operation fee tx e.next) e).ops

  -- A nil fee is dereferenced in every run, by the fee's own operation at the latest.
  unfoldable pub parse_send_tx : SendTx → TxType → Go (Metadata × List Operation)
  unfolding send_operations
  parse_send_tx tx type = do
    fee ← deref tx.fee.tfuel_wei
    ok (send_metadata tx type, send_operations fee tx)
