-- ===== src/Account/Refusals.antt =====
-- What the endpoints of services/account.go and services/network.go do to the messages of the errors:
-- nothing at all.
use theta_rosetta_rpc_adapto.Prelude.{refl, String, Bool, Option, none, some, List}
use theta_rosetta_rpc_adapto.Prelude.Int.{ℤ}
use theta_rosetta_rpc_adapto.Wire.{Theta}
use theta_rosetta_rpc_adapto.Names.{Currency}
use theta_rosetta_rpc_adapto.Rpc.{Reply}
use theta_rosetta_rpc_adapto.Block.Endpoints.{Config, NetworkIdentifier}
use theta_rosetta_rpc_adapto.Handler.Messages.{TouchesOwn, touch_rules}
use theta_rosetta_rpc_adapto.Construction.{find_key}
use theta_rosetta_rpc_adapto.Account.{
  BlockIdentifierResult, AccountNode, parse_block_identifier_result, get_block_identifier,
  or_no_account, choose_block, account_balance, account_coins,
}
use theta_rosetta_rpc_adapto.Network.{
  given_or_true, options_response, Flag, flag, no_flag, as_bool, skip_edge_node, NetworkNode,
  network_status, network_list, network_options, or_no_status,
}

parse_block_identifier_result-TouchesOwn :
    (b : Option BlockIdentifierResult) → TouchesOwn (parse_block_identifier_result b)
parse_block_identifier_result-TouchesOwn none = search touch_rules
parse_block_identifier_result-TouchesOwn (some b) = search touch_rules

get_block_identifier-TouchesOwn :
    (explain : Reply (Option BlockIdentifierResult) → String)
    (reply : Reply (Option BlockIdentifierResult))
    → TouchesOwn (get_block_identifier explain reply)
unfolding get_block_identifier
get_block_identifier-TouchesOwn explain Reply.call_failed = search touch_rules
get_block_identifier-TouchesOwn explain Reply.no_response = search touch_rules
get_block_identifier-TouchesOwn explain (Reply.error_reply code) = search touch_rules
get_block_identifier-TouchesOwn explain Reply.bad_result = search touch_rules
get_block_identifier-TouchesOwn explain (Reply.result b) =
    parse_block_identifier_result-TouchesOwn b

or_no_account-TouchesOwn : {A : Type 0} (o : Option A) → TouchesOwn (or_no_account o)
or_no_account-TouchesOwn none = search touch_rules
or_no_account-TouchesOwn (some a) = search touch_rules

ruleset node_rules = (touch_rules, get_block_identifier-TouchesOwn, or_no_account-TouchesOwn)

module _ (θ : Theta) (config : Config) (node : AccountNode) where
  choose_block-TouchesOwn :
      (at : Option (Option ℤ × Option String)) → TouchesOwn (choose_block θ config node at)
  unfolding choose_block
  choose_block-TouchesOwn none = search node_rules depth 12
  choose_block-TouchesOwn (some (some index, some hash)) = search node_rules
  choose_block-TouchesOwn (some (some index, none)) = search node_rules depth 12
  choose_block-TouchesOwn (some (none, some hash)) = search node_rules depth 12
  choose_block-TouchesOwn (some (none, none)) = search node_rules

  pub account_balance-TouchesOwn :
      (ni : Option NetworkIdentifier) (account : Option String)
      (at : Option (Option ℤ × Option String)) (currencies : Option (List (Option Currency)))
      → TouchesOwn (account_balance θ config node ni account at currencies)
  unfolding account_balance
  account_balance-TouchesOwn ni account at currencies =
      search (node_rules, choose_block-TouchesOwn) depth 20

  pub account_coins-TouchesOwn :
      (ni : Option NetworkIdentifier) (account : Option String)
      (currencies : Option (List (Option Currency)))
      → TouchesOwn (account_coins θ config node ni account currencies)
  unfolding account_coins
  account_coins-TouchesOwn ni account currencies = search node_rules depth 20

as_bool-TouchesOwn : (v : Flag) → TouchesOwn (as_bool v)
as_bool-TouchesOwn (flag b) = search touch_rules
as_bool-TouchesOwn no_flag = search touch_rules

given_or_true-TouchesOwn : (v : Option Flag) → TouchesOwn (given_or_true v)
given_or_true-TouchesOwn none = search touch_rules
given_or_true-TouchesOwn (some v) = as_bool-TouchesOwn v

skip_edge_node-TouchesOwn :
    (metadata : Option (List (String × Flag))) → TouchesOwn (skip_edge_node metadata)
skip_edge_node-TouchesOwn none = search touch_rules
skip_edge_node-TouchesOwn (some m) = given_or_true-TouchesOwn (find_key "skip_edge_node" m)

or_no_status-TouchesOwn : {A : Type 0} (o : Option A) → TouchesOwn (or_no_status o)
or_no_status-TouchesOwn none = search touch_rules
or_no_status-TouchesOwn (some a) = search touch_rules

pub network_status-TouchesOwn :
    (θ : Theta) (config : Config) (node : NetworkNode) (ni : Option NetworkIdentifier)
    (metadata : Option (List (String × Flag)))
    → TouchesOwn (network_status θ config node ni metadata)
unfolding network_status
network_status-TouchesOwn θ config node ni metadata =
    search (touch_rules, skip_edge_node-TouchesOwn, or_no_status-TouchesOwn) depth 30

pub network_list-TouchesOwn : (config : Config) → TouchesOwn (network_list config)
unfolding network_list
network_list-TouchesOwn config = search touch_rules

options_response-TouchesOwn :
    (rosetta node : String) (statuses : List (String × Bool))
    → TouchesOwn (options_response rosetta node statuses)
options_response-TouchesOwn rosetta node statuses = record { at = λ s. refl }

pub network_options-TouchesOwn :
    (config : Config) (rosetta node : String) (ni : Option NetworkIdentifier)
    → TouchesOwn (network_options config rosetta node ni)
unfolding network_options
network_options-TouchesOwn config rosetta node ni =
    search (touch_rules, options_response-TouchesOwn) depth 12
