-- ===== src/Session.antt =====
-- A server's life, as far as the messages of its errors go: the requests that services/server.go
-- routes to the network, account and construction endpoints, one after the other over the messages
-- that they all share. A handler that panics ends its own request only: `net/http` recovers it.
pub mod Log
pub mod Options
use theta_rosetta_rpc_adapto.Prelude.{ℕ, String, Bool, Option, List, [], ◌∷◌}
use theta_rosetta_rpc_adapto.Prelude.Int.{ℤ}
use theta_rosetta_rpc_adapto.Digits.{Bytes}
use theta_rosetta_rpc_adapto.Go.{Go, ok, panic}
use theta_rosetta_rpc_adapto.Names.{Currency}
use theta_rosetta_rpc_adapto.Wire.{Theta, Operation}
use theta_rosetta_rpc_adapto.Errors.{ApiError}
use theta_rosetta_rpc_adapto.Rpc.{Reply, Status}
use theta_rosetta_rpc_adapto.Block.Endpoints.{
  Config, NetworkIdentifier, Response, response, refused,
}
use theta_rosetta_rpc_adapto.Handler.{Appended}
use theta_rosetta_rpc_adapto.Construction.{Packages, Dynamic, PublicKey, construction_derive}
use theta_rosetta_rpc_adapto.Construction.Preprocess.{construction_preprocess}
use theta_rosetta_rpc_adapto.Construction.Suggest.{AccountAnswer, construction_metadata}
use theta_rosetta_rpc_adapto.Construction.Payloads.{construction_payloads, construction_parse}
use theta_rosetta_rpc_adapto.Construction.Finish.{
  Signature, construction_combine, construction_hash, construction_submit,
}
use theta_rosetta_rpc_adapto.Account.{AccountNode, account_balance, account_coins}
use theta_rosetta_rpc_adapto.Network.{
  Flag, NetworkNode, network_list, network_status, network_options,
}

-- What the handlers are given besides the request; the node's answers may differ with each.
pub record Environment : Type 0 where
  pub theta : Theta
  pub config : Config
  pub status : Reply Status
  pub get_account : String → Reply AccountAnswer
  pub broadcast : Bytes → Reply (Option String)
  pub error_text : Reply (Option String) → String
  pub account_node : AccountNode
  pub network_node : NetworkNode
  pub rosetta_version : String
  pub node_version : String

-- What a request of each endpoint carries besides the network identifier.
pub data Endpoint (Float : Type 0) : Type 0 where
  list : Endpoint Float
  status : Option (List (String × Flag)) → Endpoint Float
  options : Endpoint Float
  balance :
      Option String
      → Option (Option ℤ × Option String)
      → Option (List (Option Currency))
      → Endpoint Float
  coins : Option String → Option (List (Option Currency)) → Endpoint Float
  derive : Option PublicKey → Endpoint Float
  preprocess : List Operation → List (String × Dynamic Float) → Endpoint Float
  metadata : List (String × Dynamic Float) → Endpoint Float
  payloads : List Operation → List (String × Dynamic Float) → Endpoint Float
  parse : Bool → Bytes → Endpoint Float
  combine : Bytes → List Signature → Endpoint Float
  hash : Bytes → Endpoint Float
  submit : Bytes → Endpoint Float

pub record Request (Float : Type 0) : Type 0 where
  pub environment : Environment
  pub network : Option NetworkIdentifier
  pub endpoint : Endpoint Float

pub data Outcome : Type 0 where
  answered : Outcome
  failed : ApiError → Outcome
  panicked : Outcome

-- A handler that panics has not written to the messages.
abbrev pub settle : {A : Type 0} → Appended → Go (Response A × Appended) → Outcome × Appended
settle s (ok (response a, s')) = (Outcome.answered, s')
settle s (ok (refused e, s')) = (Outcome.failed e, s')
settle s panic = (Outcome.panicked, s)

module _ (packages : Packages) where
  unfoldable pub serve_at :
      Environment
      → Option NetworkIdentifier
      → Endpoint packages.Float
      → Appended
      → Outcome × Appended
  serve_at v ni Endpoint.list s = settle s (network_list v.config s)
  serve_at v ni (Endpoint.status flags) s =
      settle s (network_status v.theta v.config v.network_node ni flags s)
  serve_at v ni Endpoint.options s =
      settle s (network_options v.config v.rosetta_version v.node_version ni s)
  serve_at v ni (Endpoint.balance account at currencies) s =
      settle s (account_balance v.theta v.config v.account_node ni account at currencies s)
  serve_at v ni (Endpoint.coins account currencies) s =
      settle s (account_coins v.theta v.config v.account_node ni account currencies s)
  serve_at v ni (Endpoint.derive key) s =
      settle s (construction_derive packages v.theta v.config ni key s)
  serve_at v ni (Endpoint.preprocess operations given) s =
      settle s (construction_preprocess packages v.config ni operations given s)
  serve_at v ni (Endpoint.metadata given) s =
      settle s (construction_metadata packages v.status v.config v.get_account ni given s)
  serve_at v ni (Endpoint.payloads operations given) s =
      settle s (construction_payloads packages v.config ni operations given s)
  serve_at v ni (Endpoint.parse signed transaction) s =
      settle s (construction_parse packages v.theta v.config ni signed transaction s)
  serve_at v ni (Endpoint.combine unsigned signatures) s =
      settle s (construction_combine packages v.config ni unsigned signatures s)
  serve_at v ni (Endpoint.hash signed) s =
      settle s (construction_hash packages v.theta v.config ni signed s)
  serve_at v ni (Endpoint.submit signed) s =
      settle s (construction_submit v.config v.broadcast v.error_text ni signed s)

  abbrev pub serve : Request packages.Float → Appended → Outcome × Appended
  serve r = serve_at r.environment r.network r.endpoint

  -- The outcomes of requests, in order, and the messages after them.
  unfoldable pub run : List (Request packages.Float) → Appended → List Outcome × Appended
  unfolding serve_at
  run [] s = ([], s)
  run (r ∷ rs) s = let first = serve r s in let rest = run rs first.1 in (first.0 ∷ rest.0, rest.1)
