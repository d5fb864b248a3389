-- ===== src/Tests/Accounts.antt =====
-- An account's balances and coins, and the messages after requests that are refused.
use theta_rosetta_rpc_adapto.Prelude.{ℕ, ◌≡◌, refl, String, Option, none, some, List, [], ◌∷◌, map}
use theta_rosetta_rpc_adapto.Prelude.Int.{ℤ, pos}
use theta_rosetta_rpc_adapto.Go.{ok}
use theta_rosetta_rpc_adapto.Names.{Currency, get_tfuel_currency}
use theta_rosetta_rpc_adapto.Errors.{error_list}
use theta_rosetta_rpc_adapto.Rpc.{Reply, zero_status}
use theta_rosetta_rpc_adapto.Block.{signed_64}
use theta_rosetta_rpc_adapto.Block.Endpoints.{response, validate_network_identifier, guard_online}
use theta_rosetta_rpc_adapto.Handler.{nothing_appended}
use theta_rosetta_rpc_adapto.Construction.Suggest.{Account}
use theta_rosetta_rpc_adapto.Account.{
  AccountNode, BalanceResponse, CoinsResponse, choose_block, account_balance, account_coins,
}
use theta_rosetta_rpc_adapto.Account.Balances.{
  wanted, pointers, coin_of, theta_of, tfuel_of, holding, account_balance-wanted,
  account_coins-account_balance,
}
use theta_rosetta_rpc_adapto.Network.{network_options}
use theta_rosetta_rpc_adapto.Session.{Environment, Endpoint, Request, run}
use theta_rosetta_rpc_adapto.Session.Log.{Log, Explains, IsLogged, run-IsLogged}
use theta_rosetta_rpc_adapto.Session.Options.{logged_error, options_with, network_options-run}
use theta_rosetta_rpc_adapto.Tests.{sample_theta}
use theta_rosetta_rpc_adapto.Tests.Blocks.{config, mainnet}
use theta_rosetta_rpc_adapto.Tests.Codec.{sample_packages}

abbrev held : Account
held = record { sequence = 4; balance = holding (pos 30) (pos 70) }

abbrev node : AccountNode
node = record {
  status = Reply.result zero_status;
  block_by_height = λ h. Reply.call_failed;
  block_by_hash = λ h. Reply.call_failed;
  explain = λ r. "failed to get block";
  account_at = λ a h. Reply.result (some (some held));
  account_now = λ a. Reply.result (some held);
}

is_valid : validate_network_identifier config (some mainnet) ≡ none
unfolding validate_network_identifier
is_valid = refl

is_online : guard_online config (some mainnet) ≡ none
unfolding guard_online validate_network_identifier
is_online = refl

abbrev at_seven : Option (Option ℤ × Option String)
at_seven = some (some (pos 7), some "0x02")

chosen :
    choose_block sample_theta config node at_seven nothing_appended
    ≡ ok (response (7, "0x02"), nothing_appended)
unfolding choose_block
chosen = refl

abbrev asked : Option (List Currency)
asked = some (get_tfuel_currency ∷ get_tfuel_currency ∷ [])

account_balance-wanted_example :
    account_balance sample_theta config node
      (some mainnet)
      (some "0x01")
      at_seven
      (pointers asked)
      nothing_appended
    ≡ ok (
      response (record {
        block_identifier = record { index = signed_64 7; hash = "0x02" };
        sequence_number = some 4;
        balances = wanted config asked (theta_of (pos 30)) (tfuel_of (pos 70));
      }),
      nothing_appended,
    )
account_balance-wanted_example =
    account_balance-wanted sample_theta config node (some mainnet) "0x01" at_seven asked (7, "0x02")
      4 (pos 30) (pos 70) nothing_appended is_online chosen refl

account_coins-account_balance_example :
    (b : BalanceResponse) × (c : CoinsResponse) × (account_balance sample_theta config node
        (some mainnet)
        (some "0x01")
        none
        (pointers asked)
        nothing_appended
      ≡ ok (response b, nothing_appended))
    × (account_coins sample_theta config node
          (some mainnet)
          (some "0x01")
          (pointers asked)
          nothing_appended
        ≡ ok (response c, nothing_appended))
    × (c.block_identifier ≡ b.block_identifier)
    × (c.sequence_number ≡ b.sequence_number)
    × (c.coins ≡ map coin_of b.balances)
account_coins-account_balance_example =
    account_coins-account_balance sample_theta config node (some mainnet) "0x01" asked zero_status 4
      (pos 30) (pos 70) nothing_appended is_online refl refl refl

abbrev environment : Environment
environment = record {
  theta = sample_theta;
  config = config;
  status = Reply.result zero_status;
  get_account = λ a. Reply.call_failed;
  broadcast = λ b. Reply.call_failed;
  error_text = λ r. "connection refused";
  account_node = node;
  network_node = record { status = Reply.call_failed; peers = λ b. Reply.call_failed };
  rosetta_version = "1.4.10";
  node_version = "3.3.0";
}

abbrev request : Endpoint ℕ → Request ℕ
request endpoint = record { environment = environment; network = some mainnet; endpoint = endpoint }

-- A key that is missing, a broadcast that fails, a status without a node, and no operations.
abbrev requests : List (Request ℕ)
requests =
    request (Endpoint.derive none)
    ∷ request (Endpoint.submit [])
    ∷ request (Endpoint.status none)
    ∷ request (Endpoint.preprocess [] [])
    ∷ []

run-IsLogged_example : IsLogged nothing_appended (run sample_packages requests nothing_appended)
run-IsLogged_example = run-IsLogged sample_packages requests nothing_appended

network_options-run_example :
    (log : Log) × Explains (run sample_packages requests nothing_appended).0 log
    × (network_options config "1.4.10" "3.3.0"
          (some mainnet)
          (run sample_packages requests nothing_appended).1
        ≡ ok (
          response (options_with "1.4.10" "3.3.0" (map (logged_error log) error_list)),
          (run sample_packages requests nothing_appended).1,
        ))
network_options-run_example =
    network_options-run sample_packages requests config "1.4.10" "3.3.0" (some mainnet) is_valid
