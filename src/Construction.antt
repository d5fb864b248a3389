-- ===== src/Construction.antt =====
-- services/construction.go: what its endpoints share - the packages that they call, the descriptions
-- that operations are matched with, and the public key's address.
pub mod Preprocess
pub mod Suggest
pub mod Payloads
pub mod Finish
pub mod Refusals
pub mod Signing
pub mod Options
use Prim.Native.String
use theta_rosetta_rpc_adapto.Prelude.{
  ℕ, zero, suc, String, Bool, true, false, Option, none, some, List, [], ◌∷◌, ◌==◌, length,
  if◌then◌else◌, ◌=ˢ◌,
}
use theta_rosetta_rpc_adapto.Prelude.Int.{ℤ}
use theta_rosetta_rpc_adapto.Digits.{Bytes}
use theta_rosetta_rpc_adapto.Go
use theta_rosetta_rpc_adapto.Go.{Go, ok, panic}
use theta_rosetta_rpc_adapto.Names.{
  Currency, get_theta_currency, get_tfuel_currency, TxOpType, tx_op_type_string,
}
use theta_rosetta_rpc_adapto.Wire.{Theta, Address, Hash, SendTx, SmartContractTx, Operation}
use theta_rosetta_rpc_adapto.Errors.{err_invalid_input_param, err_service_internal}
use theta_rosetta_rpc_adapto.Block.Endpoints.{Config, NetworkIdentifier}
use theta_rosetta_rpc_adapto.Handler.{
  Handler, ◌>>=◌, ◌>>◌, give, refuse_with, crash, run_go, or_refuse, require, Fallible, attempt,
  valid_network,
}

-- A transaction behind the ledger's interface; only two types are told apart here.
pub data LedgerTx : Type 0 where
  send : SendTx → LedgerTx
  contract : SmartContractTx → LedgerTx
  other : ℕ → LedgerTx

pub data Sign : Type 0 where
  negative_or_zero positive_or_zero : Sign

-- A `parser.OperationDescription` that asks for an account and an amount.
pub record Description : Type 0 where
  pub op_type : String
  pub sign : Sign
  pub currency : Currency

-- What `First` of a `parser.Match` returns.
pub record Match : Type 0 where
  pub op : Option Operation
  pub amount : Option ℤ

-- A value of a JSON object, as `interface{}`: a `float64`, a `string`, or another.
pub data Dynamic (Float : Type 0) : Type 0 where
  float : Float → Dynamic Float
  text : String → Dynamic Float
  another : ℕ → Dynamic Float

-- What the endpoints call: `float64` and its conversions, the ledger's codec, signing, and the
-- matcher of the Rosetta SDK (with `ErrUnmatched`).
pub record Packages : Type 1 where
  pub Float : Type 0
  -- `uint64(f)`, the byte `TxType(f)`, and `%f`.
  pub float_u64 : Float → ℕ
  pub float_byte : Float → ℕ
  pub float_text : Float → String
  pub Point : Type 0
  pub decompress_pubkey : Bytes → Option Point
  pub marshal_point : Point → Bytes
  pub keccak256 : Bytes → Bytes
  pub bytes_to_address : Bytes → Address
  pub hash_of : Bytes → Hash
  pub hex_to_address : String → Address
  pub tx_to_bytes : LedgerTx → Fallible Bytes
  pub tx_from_bytes : Bytes → Fallible LedgerTx
  pub sign_bytes : String → LedgerTx → Bytes
  pub signature_from_bytes : Bytes → Fallible Bytes
  pub verify : Bytes → Bytes → Address → Bool
  pub set_send_signature : Address → Bytes → SendTx → SendTx
  pub set_contract_signature : Address → Bytes → SmartContractTx → SmartContractTx
  pub parse_coin_amount : String → Option ℤ
  pub minimum_fee : ℕ → ℕ → ℤ
  pub max_gas_limit : ℕ → ℕ
  pub minimum_gas_price : ℕ → ℕ
  pub match_operations : List Description → List Operation → Fallible (List Match)
  -- The text of `hex.DecodeString`'s error.
  pub hex_error : Bytes → String

-- `m[key]`
unfoldable pub find_key : {V : Type 0} → String → List (String × V) → Option V
find_key key [] = none
find_key key ((k, v) ∷ m) = if k =ˢ key then some v else find_key key m

abbrev pub describe : TxOpType → Sign → Currency → Description
describe t sign currency = record {
  op_type = tx_op_type_string t;
  sign = sign;
  currency = currency;
}

pub contract_descriptions : List Description
contract_descriptions =
    describe TxOpType.smart_contract_tx_from Sign.negative_or_zero get_tfuel_currency
    ∷ describe TxOpType.smart_contract_tx_to Sign.positive_or_zero get_tfuel_currency
    ∷ []

pub send_descriptions : List Description
send_descriptions =
    describe TxOpType.send_tx_input Sign.negative_or_zero get_theta_currency
    ∷ describe TxOpType.send_tx_input Sign.negative_or_zero get_tfuel_currency
    ∷ describe TxOpType.send_tx_output Sign.positive_or_zero get_theta_currency
    ∷ describe TxOpType.send_tx_output Sign.positive_or_zero get_tfuel_currency
    ∷ describe TxOpType.tx_fee Sign.negative_or_zero get_tfuel_currency
    ∷ []

-- A public key of a request: its bytes and the name of its curve.
pub record PublicKey : Type 0 where
  pub bytes : Bytes
  pub curve_type : String

abbrev pub curve_name : String
curve_name = "secp256k1"

-- No bytes, or another curve.
abbrev pub is_supported : PublicKey → Bool
is_supported key = if length key.bytes == 0 then false else key.curve_type =ˢ curve_name

-- `b[n:]`
abbrev pub slice_from : ℕ → Bytes → Go Bytes
slice_from zero bs = ok bs
slice_from (suc n) [] = panic
slice_from (suc n) (b ∷ bs) = slice_from n bs

abbrev pub join : String → String → String
join a b = String.◌++◌ a b

module _ (packages : Packages) where
  -- `getOperationDescriptions`
  unfoldable pub get_operation_descriptions : List Operation → Handler (List Match)
  get_operation_descriptions operations =
      if length operations == 2
      then attempt (packages.match_operations contract_descriptions operations) err_service_internal
          (λ e. e)
      else if length operations == 5
      then attempt (packages.match_operations send_descriptions operations) err_service_internal
          (λ e. e)
      else refuse_with err_service_internal "invalid number of operations"

  -- `pubkeyToAddress`: the last bytes of the hash of the point without its first byte.
  unfoldable pub pubkey_to_address : packages.Point → Go Address
  pubkey_to_address point = Go.◌>>=◌ (slice_from 1 (packages.marshal_point point)) (λ coordinates.
      Go.◌>>=◌ (slice_from 12 (packages.keccak256 coordinates))
        (λ tail. ok (packages.bytes_to_address tail)))

  -- `ConstructionDerive`: the text of the key's address.
  unfoldable pub construction_derive :
      Theta → Config → Option NetworkIdentifier → Option PublicKey → Handler String
  unfolding pubkey_to_address
  construction_derive θ config ni key = do
    valid_network config ni
    pubkey ← or_refuse key err_invalid_input_param "public key is not provided"
    require (is_supported pubkey) err_invalid_input_param "unsupported public key curve type"
    point ←
        or_refuse (packages.decompress_pubkey pubkey.bytes) err_invalid_input_param
          "Unable to decompress public key: invalid public key"
    address ← run_go (pubkey_to_address point)
    give (θ.address_hex address)
