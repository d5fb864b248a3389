-- ===== src/Network.antt =====
-- services/network.go: `NetworkList`, `NetworkStatus`, `NetworkOptions` and `GetPeers`.
use theta_rosetta_rpc_adapto.Prelude.{
  ℕ, String, Bool, true, false, not, Option, none, some, List, [], ◌∷◌, map,
}
use theta_rosetta_rpc_adapto.Prelude.Int.{ℤ, pos}
use theta_rosetta_rpc_adapto.Go.{Go, ok, panic, deref}
use theta_rosetta_rpc_adapto.Go
use theta_rosetta_rpc_adapto.Names.{chain_name, tx_op_types, block_status_string}
use theta_rosetta_rpc_adapto.Wire.{Theta}
use theta_rosetta_rpc_adapto.Errors.{ApiError, error_list, err_unable_to_get_node_status}
use theta_rosetta_rpc_adapto.Rpc.{Reply, Status, get_status}
use theta_rosetta_rpc_adapto.Parse.Contracts.{scale}
use theta_rosetta_rpc_adapto.Block.{signed_64, int64_of}
use theta_rosetta_rpc_adapto.Block.Endpoints.{Config, NetworkIdentifier, response}
use theta_rosetta_rpc_adapto.Handler.{
  Appended, Handler, ◌>>=◌, ◌>>◌, give, refuse, crash, run_go, valid_network, online_network,
}
use theta_rosetta_rpc_adapto.Construction.{find_key, join}
use theta_rosetta_rpc_adapto.Account.{BlockIdentifier}

-- `NetworkList`
unfoldable pub network_list : Config → Handler (List NetworkIdentifier)
network_list config =
    give (record { blockchain = chain_name; network = config.chain_id; sub_network = none } ∷ [])

-- A value of a request's metadata, which is asserted to be a `bool`.
pub data Flag : Type 0 where
  flag : Bool → Flag
  no_flag : Flag

abbrev pub as_bool : Flag → Handler Bool
as_bool (flag b) = give b
as_bool no_flag = crash

abbrev pub given_or_true : Option Flag → Handler Bool
given_or_true none = give true
given_or_true (some v) = as_bool v

-- Absent metadata have no keys.
abbrev pub skip_edge_node : Option (List (String × Flag)) → Handler Bool
skip_edge_node none = give true
skip_edge_node (some metadata) = given_or_true (find_key "skip_edge_node" metadata)

-- `GetPeers`: the error of the node is not looked at.
unfoldable pub get_peers : Reply (List String) → Go (Option (List String))
get_peers Reply.call_failed = ok none
get_peers Reply.no_response = panic
get_peers (Reply.error_reply code) = ok (some [])
get_peers Reply.bad_result = ok none
get_peers (Reply.result peers) = ok (some peers)

pub record NetworkStatusResponse : Type 0 where
  pub current_block : BlockIdentifier
  pub current_timestamp : ℤ
  pub genesis_block : BlockIdentifier
  pub oldest_block : BlockIdentifier
  pub sync_current : ℤ
  pub sync_target : ℤ
  pub synced : Bool
  pub peers : List String

abbrev pub or_no_status : {A : Type 0} → Option A → Handler A
or_no_status none = refuse err_unable_to_get_node_status
or_no_status (some a) = give a

abbrev pub status_response : Theta → Status → ℤ → List String → NetworkStatusResponse
status_response θ status time peers = record {
  current_block = record {
    index = signed_64 status.latest_finalized_block_height;
    hash = θ.hash_hex status.latest_finalized_block_hash;
  };
  current_timestamp = int64_of (scale 1000 (int64_of time));
  genesis_block = record { index = pos 0; hash = θ.hash_hex status.genesis_block_hash };
  oldest_block = record {
    index = signed_64 status.snapshot_block_height;
    hash = θ.hash_hex status.snapshot_block_hash;
  };
  sync_current = signed_64 status.latest_finalized_block_height;
  sync_target = signed_64 status.current_height;
  synced = not status.syncing;
  peers = peers;
}

-- The node's answers: its status, and its peers with or without the edge nodes.
pub record NetworkNode : Type 0 where
  pub status : Reply Status
  pub peers : Bool → Reply (List String)

-- `NetworkStatus`
unfoldable pub network_status :
    Theta
    → Config
    → NetworkNode
    → Option NetworkIdentifier
    → Option (List (String × Flag))
    → Handler NetworkStatusResponse
unfolding get_peers
network_status θ config node ni metadata = do
  online_network config ni
  asked ← run_go (get_status node.status)
  status ← or_no_status asked
  skip ← skip_edge_node metadata
  found ← run_go (get_peers (node.peers skip))
  peers ← or_no_status found
  time ← run_go (deref status.latest_finalized_block_time)
  give (status_response θ status time peers)

abbrev pub join_all : String → List String → String
join_all text [] = text
join_all text (t ∷ ts) = join_all (join text t) ts

-- An error as it is written out, while the messages are these.
unfoldable pub shown_error : Appended → ApiError → ApiError
shown_error s e = record {
  code = e.code;
  message = join_all e.message (s e.code);
  retriable = e.retriable;
}

-- The statuses that are declared, by their constant, and whether they are successful.
abbrev pub declared_statuses : List (ℕ × Bool)
declared_statuses =
    (0, false)
    ∷ (1, true)
    ∷ (2, false)
    ∷ (3, true)
    ∷ (4, true)
    ∷ (5, true)
    ∷ (6, true)
    ∷ (7, true)
    ∷ []

unfoldable pub named_statuses : List (ℕ × Bool) → Go (List (String × Bool))
named_statuses [] = ok []
named_statuses ((status, successful) ∷ ss) =
    Go.◌>>=◌ (block_status_string status)
      (λ name. Go.◌>>=◌ (named_statuses ss) (λ rest. ok ((name, successful) ∷ rest)))

pub record NetworkOptions : Type 0 where
  pub rosetta_version : String
  pub node_version : String
  pub operation_statuses : List (String × Bool)
  pub operation_types : List String
  pub errors : List ApiError
  pub historical_balance_lookup : Bool
  pub mempool_coins : Bool

-- The errors are the shared ones, so they are read from the messages.
abbrev pub options_response : String → String → List (String × Bool) → Handler NetworkOptions
options_response rosetta node statuses s = ok (
  response (record {
    rosetta_version = rosetta;
    node_version = node;
    operation_statuses = statuses;
    operation_types = tx_op_types;
    errors = map (shown_error s) error_list;
    historical_balance_lookup = true;
    mempool_coins = true;
  }),
  s,
)

-- `NetworkOptions`, with the version of the API that is configured and that of the node's package.
unfoldable pub network_options :
    Config → String → String → Option NetworkIdentifier → Handler NetworkOptions
unfolding shown_error named_statuses
network_options config rosetta node ni = do
  valid_network config ni
  statuses ← run_go (named_statuses declared_statuses)
  options_response rosetta node statuses
