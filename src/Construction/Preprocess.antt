-- ===== src/Construction/Preprocess.antt =====
-- `ConstructionPreprocess` of services/construction.go.
use theta_rosetta_rpc_adapto.Prelude.{String, not, Option, none, some, List, [], ◌∷◌, ◌++◌, ◌=ˢ◌}
use theta_rosetta_rpc_adapto.Prelude.Int.{ℤ}
use theta_rosetta_rpc_adapto.Names.{TxType}
use theta_rosetta_rpc_adapto.Wire.{Operation}
use theta_rosetta_rpc_adapto.Errors.{err_service_internal}
use theta_rosetta_rpc_adapto.Block.Endpoints.{Config, NetworkIdentifier}
use theta_rosetta_rpc_adapto.Handler.{
  Handler, ◌>>=◌, ◌>>◌, give, refuse_with, crash, follow, require, valid_network,
}
use theta_rosetta_rpc_adapto.Construction.{
  Match, Dynamic, Packages, find_key, get_operation_descriptions,
}

-- A value of the options; the last three are the request's own.
pub data Choice (Float : Type 0) : Type 0 where
  tx_type : TxType → Choice Float
  amount : Option ℤ → Choice Float
  account : String → Choice Float
  given : Dynamic Float → Choice Float

abbrev pub Choices : Type 0 → Type 0
Choices Float = List (String × Choice Float)

-- `if v, ok := metadata[key]; ok { options[key] = v }`
abbrev pub pass_on : {Float : Type 0} → String → Option (Dynamic Float) → Choices Float
pass_on key none = []
pass_on key (some v) = (key, Choice.given v) ∷ []

-- The address of `matches[0].First()`.
abbrev pub first_account : List Match → Handler String
first_account [] = crash
first_account (m ∷ ms) = do op ← follow m.op; give op.account

module _ {Float : Type 0} where
  -- The checks of a send's accounts, in the order in which `||` looks at them.
  unfoldable pub send_choices : Match → Match → Match → Match → Match → Handler (Choices Float)
  send_choices from_theta from_tfuel to_theta to_tfuel fee = do
    a ← follow from_theta.op
    b ← follow from_tfuel.op
    require (a.account =ˢ b.account) err_service_internal "from address not matching"
    f ← follow fee.op
    require (b.account =ˢ f.account) err_service_internal "from address not matching"
    c ← follow to_theta.op
    d ← follow to_tfuel.op
    require (c.account =ˢ d.account) err_service_internal "to address not matching"
    require (not (b.account =ˢ d.account)) err_service_internal "from and to accounts are the same"
    give (("type", Choice.tx_type TxType.send_tx) ∷ ("fee", Choice.amount fee.amount) ∷ [])

  -- By the number of matches.
  unfoldable pub choices_by_count : List Match → Handler (Choices Float)
  unfolding send_choices
  choices_by_count (m0 ∷ m1 ∷ []) = give (("type", Choice.tx_type TxType.smart_contract_tx) ∷ [])
  choices_by_count (m0 ∷ m1 ∷ m2 ∷ m3 ∷ m4 ∷ []) = send_choices m0 m1 m2 m3 m4
  choices_by_count _ = refuse_with err_service_internal "invalid number of operations"

module _ (packages : Packages) where
  unfoldable pub construction_preprocess :
      Config
      → Option NetworkIdentifier
      → List Operation
      → List (String × Dynamic packages.Float)
      → Handler (Choices packages.Float)
  unfolding choices_by_count
  construction_preprocess config ni operations metadata = do
    valid_network config ni
    matches ← get_operation_descriptions packages operations
    choices ← choices_by_count matches
    signer ← first_account matches
    give (
        choices
        ++ ("signer", Choice.account signer)
          ∷ (pass_on "gas_limit" (find_key "gas_limit" metadata)
              ++ (pass_on "gas_price" (find_key "gas_price" metadata)
                  ++ pass_on "data" (find_key "data" metadata))))
