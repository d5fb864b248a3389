-- ===== src/Tests/Codec.antt =====
-- Packages over which the construction endpoints run: a codec that knows three transactions, a
-- matcher that finds the operations as they are listed, and a signature that is one byte.
use native.Mathlib.Decide.{ℕ_discrete}
use mathlib.Core.List.{List-discrete}
use theta_rosetta_rpc_adapto.Prelude.{
  ℕ, ◌≡◌, refl, sym, ap, subst, ◌∙◌, String, Option, none, some, List, [], ◌∷◌, ◌==◌, if◌then◌else◌,
  ◌=ˢ◌, length, arith, ◌%◌,
}
use theta_rosetta_rpc_adapto.Prelude.Int.{ℤ, pos, negsuc}
use theta_rosetta_rpc_adapto.Digits.{Bytes, big_string}
use theta_rosetta_rpc_adapto.Hex.RoundTrip.{AreBytes}
use theta_rosetta_rpc_adapto.Names.{
  Currency, get_theta_currency, get_tfuel_currency, TxOpType, tx_op_type_string,
}
use theta_rosetta_rpc_adapto.Wire.{Coins, TxInput, Operation}
use theta_rosetta_rpc_adapto.Handler.{Fallible, fine, error}
use theta_rosetta_rpc_adapto.Construction.{LedgerTx, send, contract, Match, Packages}
use theta_rosetta_rpc_adapto.Construction.Payloads.SendTrip.{IsLedgerCodec, reread, found}
use theta_rosetta_rpc_adapto.Tests.{coins_of}

abbrev pub signed_input : Coins → Option Bytes → TxInput
signed_input coins signature = record {
  address = 1;
  coins = coins;
  sequence = 5;
  signature = signature;
}

abbrev pub sent : Option Bytes → LedgerTx
sent signature = send (record {
  fee = coins_of 0 1;
  inputs = signed_input (coins_of 3 11) signature ∷ [];
  outputs = record { address = 2; coins = coins_of 3 10 } ∷ [];
})

abbrev pub called : LedgerTx
called = contract (record {
  from = signed_input (coins_of 0 4) none;
  to = record { address = 2; coins = coins_of 0 4 };
  gas_limit = 10000000;
  gas_price = some (pos 0);
  payload = [];
})

abbrev tx_discrete : Discrete LedgerTx
tx_discrete = hlevel (ℕ_discrete, List-discrete)

abbrev code_if :
    (tx : LedgerTx)
    → Dec (tx ≡ sent none)
    → Dec (tx ≡ sent (some (7 ∷ [])))
    → Dec (tx ≡ called)
    → Fallible Bytes
code_if tx (yes p) q r = fine []
code_if tx (no p) (yes q) r = fine (1 ∷ [])
code_if tx (no p) (no q) (yes r) = fine (2 ∷ 2 ∷ [])
code_if tx (no p) (no q) (no r) = error "unknown"

abbrev pub encode : LedgerTx → Fallible Bytes
encode tx =
    code_if tx (tx_discrete tx (sent none)) (tx_discrete tx (sent (some (7 ∷ []))))
      (tx_discrete tx called)

abbrev decode : Bytes → Fallible LedgerTx
decode [] = fine (sent none)
decode (a ∷ []) = fine (sent (some (7 ∷ [])))
decode (a ∷ b ∷ bs) = fine called

abbrev pub kept : Option Bytes → Option Bytes
kept signature = signature

code_of :
    (tx tx' : LedgerTx) (bytes raw : Bytes)
    → tx' ≡ tx
    → bytes ≡ raw
    → AreBytes bytes
    → decode bytes ≡ fine (reread kept tx')
    → AreBytes raw × (decode raw ≡ fine (reread kept tx))
code_of tx tx' bytes raw p e a d =
    (subst AreBytes e a, ap decode (sym e) ∙ d ∙ ap (λ u. fine (reread kept u)) p)

reread_code :
    (tx : LedgerTx) (raw : Bytes) (p : Dec (tx ≡ sent none)) (q : Dec (tx ≡ sent (some (7 ∷ []))))
    (r : Dec (tx ≡ called))
    → code_if tx p q r ≡ fine raw
    → AreBytes raw × (decode raw ≡ fine (reread kept tx))
reread_code tx raw (yes p) q r e = code_of tx _ [] raw (sym p) (cc e) tt refl
reread_code tx raw (no p) (yes q) r e =
    code_of tx _ (1 ∷ []) raw (sym q) (cc e) (omega arith, tt) refl
reread_code tx raw (no p) (no q) (yes r) e =
    code_of tx _ (2 ∷ 2 ∷ []) raw (sym r) (cc e) (omega arith, (omega arith, tt)) refl
reread_code tx raw (no p) (no q) (no r) e = absurd (cc e)

abbrev pub line_of : ℤ → TxOpType → String → ℤ → Currency → Operation
line_of index type account value currency = record {
  identifier = index;
  related = [];
  op_type = tx_op_type_string type;
  status = none;
  account = account;
  amount = record { value = big_string value; currency = currency };
  metadata = [];
}

abbrev pub o0 : Operation
o0 = line_of (pos 0) TxOpType.send_tx_input "0x01" (negsuc 2) get_theta_currency

abbrev pub o1 : Operation
o1 = line_of (pos 1) TxOpType.send_tx_input "0x01" (negsuc 9) get_tfuel_currency

abbrev pub o2 : Operation
o2 = line_of (pos 2) TxOpType.send_tx_output "0x02" (pos 3) get_theta_currency

abbrev pub o3 : Operation
o3 = line_of (pos 3) TxOpType.send_tx_output "0x02" (pos 10) get_tfuel_currency

abbrev pub o4 : Operation
o4 = line_of (pos 4) TxOpType.tx_fee "0x01" (negsuc 0) get_tfuel_currency

abbrev pub c0 : Operation
c0 = line_of (pos 0) TxOpType.smart_contract_tx_from "0x01" (negsuc 3) get_tfuel_currency

abbrev pub c1 : Operation
c1 = line_of (pos 1) TxOpType.smart_contract_tx_to "0x02" (pos 4) get_tfuel_currency

abbrev pub matches_of : ℕ → Fallible (List Match)
matches_of n =
    if n == 5
    then fine (
        found o0 (negsuc 2)
        ∷ found o1 (negsuc 9)
        ∷ found o2 (pos 3)
        ∷ found o3 (pos 10)
        ∷ found o4 (negsuc 0)
        ∷ [])
    else fine (found c0 (negsuc 3) ∷ found c1 (pos 4) ∷ [])

abbrev pub sample_packages : Packages
sample_packages = record {
  Float = ℕ;
  float_u64 = λ n. n;
  float_byte = λ n. n % 256;
  float_text = λ n. "0";
  Point = Bytes;
  decompress_pubkey = λ bs. some bs;
  marshal_point = λ bs. bs;
  keccak256 = λ bs. bs;
  bytes_to_address = length;
  hash_of = length;
  hex_to_address = λ a. if a =ˢ "0x01" then 1 else 2;
  tx_to_bytes = encode;
  tx_from_bytes = decode;
  sign_bytes = λ chain tx. 9 ∷ [];
  signature_from_bytes = λ bs. fine bs;
  verify = λ sig bytes signer. length sig == 1;
  set_send_signature =
      λ signer sig tx. record tx { inputs = signed_input (coins_of 3 11) (some sig) ∷ [] };
  set_contract_signature = λ signer sig tx. tx;
  parse_coin_amount = λ t. some (pos 0);
  minimum_fee = λ n height. pos 1;
  max_gas_limit = λ height. 10000000;
  minimum_gas_price = λ height. 4000;
  match_operations = λ ds ops. matches_of (length ops);
  hex_error = λ bs. "invalid";
}

pub codec : IsLedgerCodec sample_packages kept
codec = record {
  encoded_bytes = λ tx raw e. (reread_code tx raw _ _ _ e).0;
  tx_from_bytes-tx_to_bytes = λ tx raw e. (reread_code tx raw _ _ _ e).1;
}

code_sent : (p : _) (q : _) (r : _) → code_if (sent none) p q r ≡ fine []
code_sent (yes p) q r = refl
code_sent (no p) q r = absurd (p refl)

code_signed : (p : _) (q : _) (r : _) → code_if (sent (some (7 ∷ []))) p q r ≡ fine (1 ∷ [])
code_signed (yes p) q r = absurd (cc p)
code_signed (no p) (yes q) r = refl
code_signed (no p) (no q) r = absurd (q refl)

code_called : (p : _) (q : _) (r : _) → code_if called p q r ≡ fine (2 ∷ 2 ∷ [])
code_called (yes p) q r = absurd (cc p)
code_called (no p) (yes q) r = absurd (cc q)
code_called (no p) (no q) (yes r) = refl
code_called (no p) (no q) (no r) = absurd (r refl)

pub encodes_sent : encode (sent none) ≡ fine []
encodes_sent = code_sent _ _ _

pub encodes_signed : encode (sent (some (7 ∷ []))) ≡ fine (1 ∷ [])
encodes_signed = code_signed _ _ _

pub encodes_called : encode called ≡ fine (2 ∷ 2 ∷ [])
encodes_called =
    code_called (tx_discrete called (sent none)) (tx_discrete called (sent (some (7 ∷ []))))
      (tx_discrete called called)
