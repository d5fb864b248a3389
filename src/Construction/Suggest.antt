-- ===== src/Construction/Suggest.antt =====
-- `ConstructionMetadata` of services/construction.go.
use theta_rosetta_rpc_adapto.Prelude.{
  ℕ, zero, suc, ◌+◌, ◌%◌, String, Option, none, some, List, [], ◌∷◌, ◌==◌, if◌then◌else◌,
}
use theta_rosetta_rpc_adapto.Prelude.Int.{ℤ, pos}
use theta_rosetta_rpc_adapto.Digits.{big_string}
use theta_rosetta_rpc_adapto.Go.{Go, ok, panic}
use theta_rosetta_rpc_adapto.Names.{TxType, tx_code, get_tfuel_currency}
use theta_rosetta_rpc_adapto.Wire.{Coins, Amount}
use theta_rosetta_rpc_adapto.Errors.{err_invalid_input_param, err_unable_to_get_account}
use theta_rosetta_rpc_adapto.Rpc.{Reply, Status, get_status, handle_theta_rpc_response}
use theta_rosetta_rpc_adapto.StakeService.{u64_mod}
use theta_rosetta_rpc_adapto.Block.Endpoints.{Config, NetworkIdentifier}
use theta_rosetta_rpc_adapto.Handler.{
  Handler, ◌>>=◌, ◌>>◌, give, refuse, crash, run_go, or_refuse, online_network,
}
use theta_rosetta_rpc_adapto.Construction.{Dynamic, Packages, find_key}

-- The fields of a `ttypes.Account` that the code reads.
pub record Account : Type 0 where
  pub sequence : ℕ
  pub balance : Coins

-- What `json.Unmarshal` makes of an answer of "theta.GetAccount": an error, nil, or an account.
abbrev pub AccountAnswer : Type 0
AccountAnswer = Option (Option Account)

-- A value of the metadata: a number of the code's own, or one of the options'.
pub data Entry (Float : Type 0) : Type 0 where
  number : ℕ → Entry Float
  amount : ℤ → Entry Float
  given : Dynamic Float → Entry Float

-- The metadata and the suggested fee.
pub record Suggestion (Float : Type 0) : Type 0 where
  pub metadata : List (String × Entry Float)
  pub suggested_fee : Amount

abbrev pub sequence_of : AccountAnswer → Go (Option ℕ)
sequence_of none = ok none
sequence_of (some none) = panic
sequence_of (some (some account)) = ok (some account.sequence)

abbrev pub or_unavailable : Option ℕ → Handler ℕ
or_unavailable none = refuse err_unable_to_get_account
or_unavailable (some n) = give n

-- The type assertions.
abbrev pub as_text : {Float : Type 0} → Dynamic Float → Handler String
as_text (Dynamic.text s) = give s
as_text (Dynamic.float f) = crash
as_text (Dynamic.another n) = crash

abbrev pub as_float : {Float : Type 0} → Dynamic Float → Handler Float
as_float (Dynamic.float f) = give f
as_float (Dynamic.text s) = crash
as_float (Dynamic.another n) = crash

-- The status, unless it was asked for already.
abbrev pub need_status : Reply Status → Option Status → Handler Status
need_status reply (some status) = give status
need_status reply none = do
  found ← run_go (get_status reply)
  or_refuse found err_invalid_input_param "can't get blockchain status"

abbrev pub fee_amount : ℤ → Amount
fee_amount fee = record { value = big_string fee; currency = get_tfuel_currency }

abbrev pub optional_given :
    {Float : Type 0} → String → Option (Dynamic Float) → List (String × Entry Float)
optional_given key none = []
optional_given key (some v) = (key, Entry.given v) ∷ []

module _ (packages : Packages) (status : Reply Status) where
  abbrev pub given_fee : Option (Dynamic packages.Float) → Handler ℕ
  given_fee none = give 0
  given_fee (some v) = do f ← as_float v; give (packages.float_u64 f)

  -- A fee of zero is replaced by the least one for two accounts.
  abbrev pub or_minimum : ℕ → Handler ℤ
  or_minimum zero = do st ← need_status status none; give (packages.minimum_fee 2 st.current_height)
  or_minimum (suc n) = give (pos (suc n))

  unfoldable pub suggest_fee : Option (Dynamic packages.Float) → Handler ℤ
  suggest_fee v = do fee ← given_fee v; or_minimum fee

  -- The limit and the status, if it was asked for.
  unfoldable pub suggest_gas_limit :
      Option (Dynamic packages.Float) → Handler (Entry packages.Float × Option Status)
  suggest_gas_limit (some v) = give (Entry.given v, none)
  suggest_gas_limit none = do
    st ← need_status status none
    give (Entry.number (packages.max_gas_limit st.current_height), some st)

  unfoldable pub suggest_gas_price :
      Option Status → Option (Dynamic packages.Float) → Handler (Entry packages.Float)
  suggest_gas_price known (some v) = give (Entry.given v)
  suggest_gas_price known none = do
    st ← need_status status known
    give (Entry.number (packages.minimum_gas_price st.current_height))

  abbrev pub with_sequence :
      ℕ → List (String × Entry packages.Float) → ℤ → Suggestion packages.Float
  with_sequence sequence entries fee = record {
    metadata = ("sequence", Entry.number ((sequence + 1) % u64_mod)) ∷ entries;
    suggested_fee = fee_amount fee;
  }

  unfoldable pub suggest_send :
      ℕ → List (String × Dynamic packages.Float) → Handler (Suggestion packages.Float)
  unfolding suggest_fee
  suggest_send sequence options = do
    fee ← suggest_fee (find_key "fee" options)
    give (with_sequence sequence (("fee", Entry.amount fee) ∷ []) fee)

  unfoldable pub suggest_contract :
      ℕ → List (String × Dynamic packages.Float) → Handler (Suggestion packages.Float)
  unfolding suggest_gas_limit suggest_gas_price
  suggest_contract sequence options = do
    limit ← suggest_gas_limit (find_key "gas_limit" options)
    price ← suggest_gas_price limit.1 (find_key "gas_price" options)
    give (
        with_sequence sequence
          (("gas_limit", limit.0)
            ∷ ("gas_price", price)
            ∷ optional_given "data" (find_key "data" options))
          (pos 0))

  -- By the byte of the type; any other type gets the sequence alone.
  unfoldable pub suggest_by_type :
      ℕ → ℕ → List (String × Dynamic packages.Float) → Handler (Suggestion packages.Float)
  unfolding suggest_send suggest_contract
  suggest_by_type code sequence options =
      if code == tx_code TxType.send_tx
      then suggest_send sequence options
      else if code == tx_code TxType.smart_contract_tx
      then suggest_contract sequence options
      else give (with_sequence sequence [] (pos 0))

  unfoldable pub construction_metadata :
      Config
      → (String → Reply AccountAnswer)
      → Option NetworkIdentifier
      → List (String × Dynamic packages.Float)
      → Handler (Suggestion packages.Float)
  unfolding suggest_by_type
  construction_metadata config get_account ni options = do
    online_network config ni
    signer ← or_refuse (find_key "signer" options) err_invalid_input_param "empty signer address"
    address ← as_text signer
    found ← run_go (handle_theta_rpc_response (get_account address) sequence_of)
    sequence ← or_unavailable found
    type ← or_refuse (find_key "type" options) err_invalid_input_param "tx type missing in metadata"
    f ← as_float type
    suggest_by_type (packages.float_byte f) sequence options
