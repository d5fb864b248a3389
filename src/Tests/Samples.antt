-- ===== src/Tests/Samples.antt =====
-- A node's answers with a validator and a guardian, and a decoder that reads one value of each type.
use theta_rosetta_rpc_adapto.Prelude.{ℕ, none, some, List, [], ◌∷◌, true}
use theta_rosetta_rpc_adapto.Prelude.Int.{pos}
use theta_rosetta_rpc_adapto.Wire.{Address}
use theta_rosetta_rpc_adapto.Rpc.{Reply, zero_status}
use theta_rosetta_rpc_adapto.StakeService.{Stake, StakeHolder, PoolPair, EenpPair, Client}
use theta_rosetta_rpc_adapto.Transaction.{Decoder}
use theta_rosetta_rpc_adapto.Tests.{coins_of, no_coins, input_of, output_of, withdrawal}

abbrev pub stake_of : Address → ℕ → Stake
stake_of holder amount = record {
  source = 1;
  holder = holder;
  amount = some (pos amount);
  withdrawn = true;
  return_height = 500;
}

abbrev pub candidates : List StakeHolder
candidates = record { holder = 2; stakes = stake_of 2 70 ∷ stake_of 2 80 ∷ [] } ∷ []

abbrev pub guardians : List StakeHolder
guardians = record { holder = 3; stakes = stake_of 3 90 ∷ [] } ∷ []

abbrev pub vcp : PoolPair
vcp = record { block_hash = 1; pool = some candidates }

abbrev pub gcp : PoolPair
gcp = record { block_hash = 1; pool = some guardians }

abbrev pub eenp : EenpPair
eenp = record { block_hash = 1; eens = [] }

abbrev pub client : Client
client = record {
  status = Reply.result zero_status;
  vcp_by_height = λ h. Reply.result (vcp ∷ []);
  gcp_by_height = λ h. Reply.result (gcp ∷ []);
  eenp_by_height = λ h. Reply.result (eenp ∷ []);
  eenp_stake_by_height = λ h source holder withdrawn. Reply.call_failed;
  unknown_method = Reply.call_failed;
}

abbrev pub decoder : Decoder
decoder = record {
  coinbase = λ b. record { proposer = input_of 1 no_coins; outputs = []; block_height = 100 };
  slash = λ b. record {
    proposer = input_of 1 no_coins;
    slashed_address = 2;
    reserve_sequence = 1;
    slash_proof = [];
  };
  send = λ b. record {
    fee = coins_of 0 3;
    inputs = input_of 1 (coins_of 5 10) ∷ [];
    outputs = output_of 2 (coins_of 5 7) ∷ [];
  };
  reserve_fund = λ b. record {
    fee = no_coins;
    source = input_of 1 no_coins;
    collateral = no_coins;
    resource_ids = [];
    duration = 1;
  };
  release_fund = λ b. record { fee = no_coins; source = input_of 1 no_coins; reserve_sequence = 1 };
  service_payment = λ b. record {
    fee = no_coins;
    source = input_of 1 no_coins;
    target = input_of 2 no_coins;
    payment_sequence = 1;
    reserve_sequence = 1;
    resource_id = "r";
  };
  split_rule = λ b. record {
    fee = no_coins;
    resource_id = "r";
    initiator = input_of 1 no_coins;
    splits = [];
    duration = 1;
  };
  smart_contract = λ b. record {
    from = input_of 1 no_coins;
    to = output_of 2 no_coins;
    gas_limit = 1;
    gas_price = none;
    payload = [];
  };
  deposit_stake = λ b. record {
    fee = no_coins;
    source = input_of 1 no_coins;
    holder = output_of 2 no_coins;
    purpose = 0;
    bls_pubkey = none;
    bls_pop = none;
    holder_sig = none;
  };
  withdraw_stake = λ b. withdrawal;
  stake_reward_distribution = λ b. record {
    fee = no_coins;
    holder = input_of 1 no_coins;
    beneficiary = output_of 2 no_coins;
    split_basis_point = 1;
  };
}
