-- ===== src/Account.antt =====
-- services/account.go, and the block identifiers of common/utils.go that it asks the node for.
pub mod Balances
pub mod Refusals
use theta_rosetta_rpc_adapto.Prelude.{
  ℕ, String, Bool, true, false, Option, none, some, List, [], ◌∷◌, ◌++◌, map, ◌==◌, if◌then◌else◌,
}
use theta_rosetta_rpc_adapto.Prelude.Int.{ℤ, pos, negsuc}
use theta_rosetta_rpc_adapto.Digits.{Bytes, big_string, big_pointer_string}
use theta_rosetta_rpc_adapto.Go.{Go, ok, deref}
use theta_rosetta_rpc_adapto.Go
use theta_rosetta_rpc_adapto.Names.{Currency, get_theta_currency, get_tfuel_currency}
use theta_rosetta_rpc_adapto.Wire.{Hash, Coins, Amount, Theta}
use theta_rosetta_rpc_adapto.Errors.{ApiError, err_unable_to_get_account, err_unable_to_get_blk}
use theta_rosetta_rpc_adapto.Rpc.{Reply, Status, get_status, handle_theta_rpc_response}
use theta_rosetta_rpc_adapto.Block.{signed_64}
use theta_rosetta_rpc_adapto.Block.Endpoints.{Config, NetworkIdentifier, unsigned_64}
use theta_rosetta_rpc_adapto.Handler.{
  Handler, ◌>>=◌, ◌>>◌, give, refuse, crash, run_go, follow, online_network,
}
use theta_rosetta_rpc_adapto.Construction.Suggest.{Account, AccountAnswer}

-- A `GetBlockIdentifierResultInner`; its pointer may be nil.
pub record BlockIdentifierResult : Type 0 where
  pub height : ℕ
  pub hash : Hash

-- An error that is made on the spot: code 0 and a text.
abbrev pub made_error : String → ApiError
made_error text = record { code = 0; message = text; retriable = false }

unfoldable pub is_not_found : ℤ → Bool
is_not_found (pos n) = false
is_not_found (negsuc n) = n == 31999

abbrev pub parse_block_identifier_result :
    Option BlockIdentifierResult → Handler BlockIdentifierResult
parse_block_identifier_result none = refuse err_unable_to_get_blk
parse_block_identifier_result (some b) = give b

-- `GetBlockIdentifierByHeight` and `GetBlockIdentifierByHash` on the node's reply, with the texts of
-- the errors that they make of it.
unfoldable pub get_block_identifier :
    (Reply (Option BlockIdentifierResult) → String)
    → Reply (Option BlockIdentifierResult)
    → Handler BlockIdentifierResult
unfolding is_not_found
get_block_identifier explain Reply.call_failed = refuse (made_error (explain Reply.call_failed))
get_block_identifier explain Reply.no_response = crash
get_block_identifier explain (Reply.error_reply code) =
    if is_not_found code
    then refuse err_unable_to_get_blk
    else refuse (made_error (explain (Reply.error_reply code)))
get_block_identifier explain Reply.bad_result = refuse (made_error (explain Reply.bad_result))
get_block_identifier explain (Reply.result b) = parse_block_identifier_result b

-- The node's answers. What an answer about an account leaves behind where `json.Unmarshal`'s error is
-- dropped is a pointer that may be nil.
pub record AccountNode : Type 0 where
  pub status : Reply Status
  pub block_by_height : ℕ → Reply (Option BlockIdentifierResult)
  pub block_by_hash : String → Reply (Option BlockIdentifierResult)
  pub explain : Reply (Option BlockIdentifierResult) → String
  pub account_at : String → ℕ → Reply AccountAnswer
  pub account_now : String → Reply (Option Account)

pub record BlockIdentifier : Type 0 where
  pub index : ℤ
  pub hash : String

-- A response of `AccountBalance`; the number is there unless the account is not found.
pub record BalanceResponse : Type 0 where
  pub block_identifier : BlockIdentifier
  pub sequence_number : Option ℕ
  pub balances : List Amount

-- A coin: its identifier and its amount.
abbrev pub Coin : Type 0
Coin = String × Amount

pub record CoinsResponse : Type 0 where
  pub block_identifier : BlockIdentifier
  pub sequence_number : Option ℕ
  pub coins : List Coin

abbrev pub amount_of : Bytes → Currency → Amount
amount_of value currency = record { value = value; currency = currency }

abbrev pub zero_of : Currency → Amount
zero_of currency = amount_of (big_string (pos 0)) currency

-- Which of the two currencies are asked for.
abbrev pub note_currency : Config → Currency → Bool × Bool → Bool × Bool
note_currency config c (needs_theta, needs_tfuel) =
    if config.equal_fold c.symbol get_theta_currency.symbol
    then (true, needs_tfuel)
    else if config.equal_fold c.symbol get_tfuel_currency.symbol
    then (needs_theta, true)
    else (needs_theta, needs_tfuel)

unfoldable pub note_currencies : Config → List (Option Currency) → Bool × Bool → Go (Bool × Bool)
note_currencies config [] needs = ok needs
note_currencies config (c ∷ cs) needs =
    Go.◌>>=◌ (deref c) (λ currency. note_currencies config cs (note_currency config currency needs))

abbrev pub needed_currencies : Config → Option (List (Option Currency)) → Go (Bool × Bool)
needed_currencies config none = ok (true, true)
needed_currencies config (some cs) = note_currencies config cs (false, false)

abbrev pub amount_if : Bool → Amount → List Amount
amount_if false amount = []
amount_if true amount = amount ∷ []

-- The amounts of the two closures, in their order.
unfoldable pub balances_of : Config → Option (List (Option Currency)) → Coins → Go (List Amount)
unfolding note_currencies
balances_of config currencies balance = Go.◌>>=◌ (needed_currencies config currencies) (λ needs.
    ok (
      amount_if needs.0 (amount_of (big_pointer_string balance.theta_wei) get_theta_currency)
      ++ amount_if needs.1 (amount_of (big_pointer_string balance.tfuel_wei) get_tfuel_currency)))

abbrev pub both_zero : List Amount
both_zero = zero_of get_theta_currency ∷ zero_of get_tfuel_currency ∷ []

-- `AccountCoins` notes the currencies and makes its amounts on its own.
abbrev pub note_coin_currency : Config → Currency → Bool × Bool → Bool × Bool
note_coin_currency config currency (need_theta, need_tfuel) =
    if config.equal_fold currency.symbol get_theta_currency.symbol
    then (true, need_tfuel)
    else if config.equal_fold currency.symbol get_tfuel_currency.symbol
    then (need_theta, true)
    else (need_theta, need_tfuel)

unfoldable pub note_coin_currencies :
    Config → List (Option Currency) → Bool × Bool → Go (Bool × Bool)
note_coin_currencies config [] needs = ok needs
note_coin_currencies config (c ∷ cs) needs =
    Go.◌>>=◌ (deref c)
      (λ currency. note_coin_currencies config cs (note_coin_currency config currency needs))

abbrev pub needed_coins : Config → Option (List (Option Currency)) → Go (Bool × Bool)
needed_coins config (some cs) = note_coin_currencies config cs (false, false)
needed_coins config none = ok (true, true)

abbrev pub theta_coin : Bytes → Coin
theta_coin value =
    (get_theta_currency.symbol, record { value = value; currency = get_theta_currency })

abbrev pub tfuel_coin : Bytes → Coin
tfuel_coin value =
    (get_tfuel_currency.symbol, record { value = value; currency = get_tfuel_currency })

abbrev pub coin_if : Bool → Coin → List Coin
coin_if true coin = coin ∷ []
coin_if false coin = []

abbrev pub or_no_account : {A : Type 0} → Option A → Handler A
or_no_account none = refuse err_unable_to_get_account
or_no_account (some a) = give a

-- Whether the node says that there is no such account.
unfoldable pub is_unknown : {A : Type 0} → Reply A → Bool
unfolding is_not_found
is_unknown (Reply.error_reply code) = is_not_found code
is_unknown _ = false

module _ (θ : Theta) (config : Config) (node : AccountNode) where
  -- The height and the hash that a request is about.
  unfoldable pub choose_block : Option (Option ℤ × Option String) → Handler (ℕ × String)
  unfolding get_block_identifier
  choose_block none = do
    found ← run_go (get_status node.status)
    status ← or_no_account found
    give (status.latest_finalized_block_height, θ.hash_string status.latest_finalized_block_hash)
  choose_block (some (some index, some hash)) = give (unsigned_64 index, hash)
  choose_block (some (some index, none)) = do
    b ← get_block_identifier node.explain (node.block_by_height (unsigned_64 index))
    give (unsigned_64 index, θ.hash_hex b.hash)
  choose_block (some (none, some hash)) = do
    b ← get_block_identifier node.explain (node.block_by_hash hash)
    give (b.height, hash)
  choose_block (some (none, none)) = crash

  abbrev pub identifier_of : ℕ × String → BlockIdentifier
  identifier_of (height, hash) = record { index = signed_64 height; hash = hash }

  -- The closure of `AccountBalance`.
  unfoldable pub balance_of_answer :
      ℕ × String → Option (List (Option Currency)) → AccountAnswer → Go (Option BalanceResponse)
  unfolding balances_of
  balance_of_answer block currencies none = ok none
  balance_of_answer block currencies (some answer) = Go.◌>>=◌ (deref answer) (λ account.
      Go.◌>>=◌ (balances_of config currencies account.balance) (λ amounts. ok (
        some (record {
          block_identifier = identifier_of block;
          sequence_number = some account.sequence;
          balances = amounts;
        }))))

  abbrev pub unknown_balance : ℕ × String → BalanceResponse
  unknown_balance block = record {
    block_identifier = identifier_of block;
    sequence_number = none;
    balances = both_zero;
  }

  unfoldable pub account_balance :
      Option NetworkIdentifier
      → Option String
      → Option (Option ℤ × Option String)
      → Option (List (Option Currency))
      → Handler BalanceResponse
  unfolding choose_block balance_of_answer is_unknown
  account_balance ni account at currencies = do
    online_network config ni
    block ← choose_block at
    address ← follow account
    let reply = node.account_at address block.0
    let answered = handle_theta_rpc_response reply (balance_of_answer block currencies)
    found ← run_go (if is_unknown reply then ok (some (unknown_balance block)) else answered)
    or_no_account found

  -- The closure of `AccountCoins`.
  unfoldable pub coins_of_answer :
      BlockIdentifier → Option (List (Option Currency)) → Option Account → Go (Option CoinsResponse)
  unfolding note_coin_currencies
  coins_of_answer block currencies answer = Go.◌>>=◌ (deref answer) (λ account.
      Go.◌>>=◌ (needed_coins config currencies) (λ (need_theta, need_tfuel). ok (
        some (record {
          block_identifier = block;
          sequence_number = some account.sequence;
          coins =
              coin_if need_theta (theta_coin (big_pointer_string account.balance.theta_wei))
              ++ coin_if need_tfuel (tfuel_coin (big_pointer_string account.balance.tfuel_wei));
        }))))

  abbrev pub unknown_coins : BlockIdentifier → CoinsResponse
  unknown_coins block = record {
    block_identifier = block;
    sequence_number = none;
    coins = theta_coin (big_string (pos 0)) ∷ tfuel_coin (big_string (pos 0)) ∷ [];
  }

  -- The status is followed whether or not there is one.
  unfoldable pub account_coins :
      Option NetworkIdentifier
      → Option String
      → Option (List (Option Currency))
      → Handler CoinsResponse
  unfolding coins_of_answer is_unknown
  account_coins ni account currencies = do
    online_network config ni
    asked ← run_go (get_status node.status)
    status ← follow asked
    let block =
        identifier_of
          (status.latest_finalized_block_height, θ.hash_string status.latest_finalized_block_hash)
    address ← follow account
    let reply = node.account_now address
    let answered = handle_theta_rpc_response reply (coins_of_answer block currencies)
    found ← run_go (if is_unknown reply then ok (some (unknown_coins block)) else answered)
    or_no_account found
