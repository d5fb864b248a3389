-- ===== src/Account/Balances.antt =====
-- Which balances the endpoints of services/account.go answer with.
use theta_rosetta_rpc_adapto.Prelude.{
  ℕ, ◌≡◌, refl, String, Bool, true, false, ◌||◌, ◌&&◌, not, Option, none, some, List, [], ◌∷◌, ◌++◌,
  map, Bool-cases, inl, inr,
}
use theta_rosetta_rpc_adapto.Prelude.Int.{ℤ}
use theta_rosetta_rpc_adapto.Digits.{big_string, big_pointer_string}
use theta_rosetta_rpc_adapto.Go.{ok}
use theta_rosetta_rpc_adapto.Names.{Currency, get_theta_currency, get_tfuel_currency}
use theta_rosetta_rpc_adapto.Wire.{Coins, Amount, Theta}
use theta_rosetta_rpc_adapto.Rpc.{Reply, Status, get_status, handle_theta_rpc_response}
use theta_rosetta_rpc_adapto.Block.{signed_64}
use theta_rosetta_rpc_adapto.Block.Endpoints.{Config, NetworkIdentifier, response, guard_online}
use theta_rosetta_rpc_adapto.Handler.{Appended}
use theta_rosetta_rpc_adapto.Account.{
  AccountNode, BalanceResponse, CoinsResponse, Coin, amount_of, amount_if, note_currencies,
  note_coin_currencies, needed_coins, theta_coin, tfuel_coin, coin_if, balances_of, choose_block,
  account_balance, account_coins, balance_of_answer, coins_of_answer, is_unknown,
}

-- Whether a currency's symbol is that of the other, up to case.
abbrev pub names : Config → Currency → Currency → Bool
names config c d = config.equal_fold c.symbol d.symbol

abbrev pub any : (Currency → Bool) → List Currency → Bool
any p [] = false
any p (c ∷ cs) = p c || any p cs

-- One that names TFuel and not Theta.
abbrev pub names_tfuel : Config → Currency → Bool
names_tfuel config c = not (names config c get_theta_currency) && names config c get_tfuel_currency

or_true : (b : Bool) → b || true ≡ true
or_true true = refl
or_true false = refl

or_false : (b : Bool) → b || false ≡ b
or_false true = refl
or_false false = refl

note_currencies-any :
    (config : Config) (cs : List Currency) (t f : Bool)
    → note_currencies config (map some cs) (t, f)
      ≡ ok (t || any (λ c. names config c get_theta_currency) cs, f || any (names_tfuel config) cs)
unfolding note_currencies
note_currencies-any config [] t f = rw (or_false t, or_false f)
note_currencies-any config (c ∷ cs) t f = elim (Bool-cases (names config c get_theta_currency)) [
  | inl e ↦ rw (e, note_currencies-any config cs true f, or_true t)
  | inr e ↦ elim (Bool-cases (names config c get_tfuel_currency)) [
    | inl g ↦ rw (e, g, note_currencies-any config cs t true, or_true f)
    | inr g ↦ rw (e, g, note_currencies-any config cs t f)
  ]
]

-- The balances that are asked for: Theta first, each once; both where nothing is asked for.
abbrev pub wanted : Config → Option (List Currency) → Amount → Amount → List Amount
wanted config none theta tfuel = theta ∷ tfuel ∷ []
wanted config (some cs) theta tfuel =
    amount_if (any (λ c. names config c get_theta_currency) cs) theta
    ++ amount_if (any (names_tfuel config) cs) tfuel

-- The pointers of a request's currencies, none of which is nil.
abbrev pub pointers : Option (List Currency) → Option (List (Option Currency))
pointers none = none
pointers (some cs) = some (map some cs)

-- An account's two amounts, both set.
abbrev pub theta_of : ℤ → Amount
theta_of z = amount_of (big_string z) get_theta_currency

abbrev pub tfuel_of : ℤ → Amount
tfuel_of z = amount_of (big_string z) get_tfuel_currency

abbrev pub holding : ℤ → ℤ → Coins
holding theta tfuel = record { theta_wei = some theta; tfuel_wei = some tfuel }

balances_of-wanted :
    (config : Config) (asked : Option (List Currency)) (theta tfuel : ℤ)
    → balances_of config (pointers asked) (holding theta tfuel)
      ≡ ok (wanted config asked (theta_of theta) (tfuel_of tfuel))
unfolding balances_of big_string big_pointer_string
balances_of-wanted config none theta tfuel = refl
balances_of-wanted config (some cs) theta tfuel = rw (note_currencies-any config cs false false)

-- An amount as a coin: its identifier is the symbol of its currency.
abbrev pub coin_of : Amount → Coin
coin_of amount = (amount.currency.symbol, amount)

note_coin_currencies-any :
    (config : Config) (cs : List Currency) (t f : Bool)
    → note_coin_currencies config (map some cs) (t, f)
      ≡ ok (t || any (λ c. names config c get_theta_currency) cs, f || any (names_tfuel config) cs)
unfolding note_coin_currencies
note_coin_currencies-any config [] t f = rw (or_false t, or_false f)
note_coin_currencies-any config (c ∷ cs) t f =
    elim (Bool-cases (names config c get_theta_currency)) [
      | inl e ↦ rw (e, note_coin_currencies-any config cs true f, or_true t)
      | inr e ↦ elim (Bool-cases (names config c get_tfuel_currency)) [
        | inl g ↦ rw (e, g, note_coin_currencies-any config cs t true, or_true f)
        | inr g ↦ rw (e, g, note_coin_currencies-any config cs t f)
      ]
    ]

-- Which coins are asked for.
abbrev wanted_flags : Config → Option (List Currency) → Bool × Bool
wanted_flags config none = (true, true)
wanted_flags config (some cs) =
    (any (λ c. names config c get_theta_currency) cs, any (names_tfuel config) cs)

needed_coins-wanted :
    (config : Config) (asked : Option (List Currency))
    → needed_coins config (pointers asked) ≡ ok (wanted_flags config asked)
needed_coins-wanted config none = refl
needed_coins-wanted config (some cs) = note_coin_currencies-any config cs false false

map-amount_if :
    (t f : Bool) (x y : Amount)
    → coin_if t (coin_of x) ++ coin_if f (coin_of y) ≡ map coin_of (amount_if t x ++ amount_if f y)
map-amount_if true true x y = refl
map-amount_if true false x y = refl
map-amount_if false true x y = refl
map-amount_if false false x y = refl

coins-wanted :
    (config : Config) (asked : Option (List Currency)) (theta tfuel : ℤ)
    → coin_if (wanted_flags config asked).0 (theta_coin (big_string theta))
        ++ coin_if (wanted_flags config asked).1 (tfuel_coin (big_string tfuel))
      ≡ map coin_of (wanted config asked (theta_of theta) (tfuel_of tfuel))
coins-wanted config none theta tfuel = refl
coins-wanted config (some cs) theta tfuel = map-amount_if _ _ (theta_of theta) (tfuel_of tfuel)

module _ (θ : Theta) (config : Config) (node : AccountNode) where
  -- Online and with a valid network identifier, an account that the node knows at the block that
  -- was chosen is answered with that block's height and hash, its sequence, and its balances: Theta
  -- if a currency asked for has its symbol up to case, TFuel if one has TFuel's and not Theta's,
  -- each once and in this order, and both where no currencies are given.
  pub account_balance-wanted :
      (ni : Option NetworkIdentifier) (address : String) (at : Option (Option ℤ × Option String))
      (asked : Option (List Currency)) (block : ℕ × String) (sequence : ℕ) (theta tfuel : ℤ)
      (s : Appended)
      → guard_online config ni ≡ none
      → choose_block θ config node at s ≡ ok (response block, s)
      → node.account_at address block.0
        ≡ Reply.result (some (some (record { sequence = sequence; balance = holding theta tfuel })))
      → account_balance θ config node ni (some address) at (pointers asked) s
        ≡ ok (
          response (record {
            block_identifier = record { index = signed_64 block.0; hash = block.1 };
            sequence_number = some sequence;
            balances = wanted config asked (theta_of theta) (tfuel_of tfuel);
          }),
          s,
        )
  unfolding account_balance handle_theta_rpc_response balance_of_answer is_unknown
  account_balance-wanted ni address at asked block sequence theta tfuel s v b a =
      rw (v, b, a, balances_of-wanted config asked theta tfuel)

  -- Online, with a valid network identifier and no block asked for, where the node answers the same
  -- account to both calls, `AccountCoins` responds with the block, sequence and amounts of
  -- `AccountBalance`, each amount under its currency's symbol.
  pub account_coins-account_balance :
      (ni : Option NetworkIdentifier) (address : String) (asked : Option (List Currency))
      (status : Status) (sequence : ℕ) (theta tfuel : ℤ) (s : Appended)
      → guard_online config ni ≡ none
      → node.status ≡ Reply.result status
      → node.account_now address
        ≡ Reply.result (some (record { sequence = sequence; balance = holding theta tfuel }))
      → node.account_at address status.latest_finalized_block_height
        ≡ Reply.result (some (some (record { sequence = sequence; balance = holding theta tfuel })))
      → (b : BalanceResponse) × (c : CoinsResponse) × (account_balance θ config node ni
            (some address)
            none
            (pointers asked)
            s
          ≡ ok (response b, s))
        × (account_coins θ config node ni (some address) (pointers asked) s ≡ ok (response c, s))
        × (c.block_identifier ≡ b.block_identifier)
        × (c.sequence_number ≡ b.sequence_number)
        × (c.coins ≡ map coin_of b.balances)
  unfolding account_coins choose_block get_status handle_theta_rpc_response coins_of_answer
      is_unknown big_pointer_string
  account_coins-account_balance ni address asked status sequence theta tfuel s v st now then = (
    _,
    _,
    account_balance-wanted ni address none asked
        (status.latest_finalized_block_height, θ.hash_string status.latest_finalized_block_hash)
        sequence theta tfuel s v (rw st) then,
    rw (v, st, now, needed_coins-wanted config asked),
    refl,
    refl,
    coins-wanted config asked theta tfuel,
  )
