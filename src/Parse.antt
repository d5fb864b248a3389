-- ===== src/Parse.antt =====
-- The parts that the transaction parsers of common/utils.go share: how an operation is built,
-- numbered, linked to the one before it, stamped with the block's status and appended.
pub mod Transfers
pub mod Funds
pub mod Contracts
pub mod Stakes
pub mod Sequence
pub mod Balance
use theta_rosetta_rpc_adapto.Prelude.{
  ℕ, zero, suc, ◌+◌, String, Bool, true, false, not, Option, none, some, List, [], ◌∷◌, ◌++◌, ◌==◌,
  if◌then◌else◌,
}
use theta_rosetta_rpc_adapto.Prelude.Int.{ℤ, pos, negsuc, neg}
use theta_rosetta_rpc_adapto.Digits.{Bytes, big_string}
use theta_rosetta_rpc_adapto.Names.{get_tfuel_currency, Currency, TxOpType, tx_op_type_string}
use theta_rosetta_rpc_adapto.Wire.{Metadata, Value, Operation, TxInput, Theta}

-- The running index `i` and the slice `ops`.
pub record Emitter : Type 0 where
  pub next : ℕ
  pub ops : List Operation

abbrev pub no_ops : Emitter
no_ops = record { next = 0; ops = [] }

-- `&types.Operation{…}` with no related operations and no status.
abbrev pub operation : ℕ → TxOpType → String → Bytes → Currency → Metadata → Operation
operation i t account value currency meta = record {
  identifier = pos i;
  related = [];
  op_type = tx_op_type_string t;
  status = none;
  account = account;
  amount = record { value = value; currency = currency };
  metadata = meta;
}

-- The operation of a fee: its negated TFuel.
abbrev pub fee_operation : ℕ → String → ℤ → Operation
fee_operation i account fee =
    operation i TxOpType.tx_fee account (big_string (neg fee)) get_tfuel_currency []

-- `{"sequence": …, "signature": …}`
abbrev pub input_metadata : Theta → TxInput → Metadata
input_metadata θ input =
    ("sequence", Value.number input.sequence)
    ∷ ("signature", Value.bytes (θ.marshal_signature input.signature))
    ∷ []

-- `if status != nil { op.Status = status }`
abbrev pub set_status : Option String → Operation → Operation
set_status none op = op
set_status (some s) op = record op { status = some s }

-- `if i > 0 { op.RelatedOperations = {i - 1} }`
abbrev pub link : ℕ → Operation → Operation
link zero op = op
link (suc i) op = record op { related = pos i ∷ [] }

-- `ops = append(ops, op); i++`
abbrev pub append : Operation → Emitter → Emitter
append op e = record { next = e.next + 1; ops = e.ops ++ op ∷ [] }

-- The tail that nearly every operation has: status, link, append, next index.
unfoldable pub emit : Option String → Operation → Emitter → Emitter
emit status op e = append (link e.next (set_status status op)) e

-- `p != big.NewInt(0)` compares the pointer with that of a fresh integer: it holds of every pointer.
abbrev pub differs_from_new : ℤ → Bool
differs_from_new z = true

-- `if p != nil && p != big.NewInt(0) { … }`
unfoldable pub emit_coin : Option String → Option ℤ → (ℕ → ℤ → Operation) → Emitter → Emitter
emit_coin status none build e = e
emit_coin status (some z) build e = if differs_from_new z then emit status (build e.next z) e else e

-- `len(p.Bits()) != 0`
abbrev pub has_bits : ℤ → Bool
has_bits (pos zero) = false
has_bits (pos (suc n)) = true
has_bits (negsuc n) = true

-- `if p != nil && len(p.Bits()) != 0 { … }`, with no status.
unfoldable pub emit_nonzero : Option ℤ → (ℕ → ℤ → Operation) → Emitter → Emitter
emit_nonzero none build e = e
emit_nonzero (some z) build e = if has_bits z then emit none (build e.next z) e else e
