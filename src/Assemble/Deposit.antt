-- ===== src/Assemble/Deposit.antt =====
-- A deposit that is parsed has too few operations to be assembled.
use theta_rosetta_rpc_adapto.Prelude.{
  ℕ, ◌≡◌, refl, String, Option, none, some, List, [], ◌∷◌, Option-cases, inl, inr, ◌⊎◌,
}
use theta_rosetta_rpc_adapto.Prelude.Int.{ℤ}
use theta_rosetta_rpc_adapto.Go.{ok, panic, index}
use theta_rosetta_rpc_adapto.Names.{TxType, tx_code}
use theta_rosetta_rpc_adapto.Wire.{Coins, DepositStakeTx, Metadata, Operation, Theta}
use theta_rosetta_rpc_adapto.Parse.{emit, emit_coin}
use theta_rosetta_rpc_adapto.Parse.Stakes.{
  deposit_metadata, deposit_source, deposit_operations, parse_deposit_stake_tx,
}
use theta_rosetta_rpc_adapto.Assemble.{Item, Library}
use theta_rosetta_rpc_adapto.Assemble.Dispatch.{
  assemble_deposit_stake, assemble_by_type, assemble_tx,
}
use theta_rosetta_rpc_adapto.Construction.{find_key}

-- Whatever is asked of the fourth operation.
IsShort : List Operation → Type 0
IsShort ops = index ops 3 ≡ panic

module _ (θ : Theta) (status : Option String) (fee : ℤ) (tx : DepositStakeTx) where
  deposit_operations-IsShort : IsShort (deposit_operations θ status fee tx)
  unfolding IsShort index deposit_operations deposit_source emit_coin emit
  deposit_operations-IsShort = elim (Option-cases tx.source.coins.theta_wei) [
    | inl e ↦ elim (Option-cases tx.source.coins.tfuel_wei) [
      | inl f ↦ rw (e, f)
      | inr (z, f) ↦ rw (e, f)
    ]
    | inr (y, e) ↦ elim (Option-cases tx.source.coins.tfuel_wei) [
      | inl f ↦ rw (e, f)
      | inr (z, f) ↦ rw (e, f)
    ]
  ]

module _ (library : Library) where
  assemble_deposit_stake-eq-panic :
      (ops : List Operation) (meta : List (String × Item library.Float)) (fee : Coins)
      (sequence : ℕ)
      → IsShort ops
      → assemble_deposit_stake library ops meta fee sequence ≡ panic
  unfolding IsShort index assemble_deposit_stake
  assemble_deposit_stake-eq-panic [] meta fee sequence h = refl
  assemble_deposit_stake-eq-panic (a ∷ []) meta fee sequence h = refl
  assemble_deposit_stake-eq-panic (a ∷ b ∷ []) meta fee sequence h = refl
  assemble_deposit_stake-eq-panic (a ∷ b ∷ c ∷ []) meta fee sequence h = refl
  assemble_deposit_stake-eq-panic (a ∷ b ∷ c ∷ d ∷ ops) meta fee sequence h = absurd (cc h)

  -- A deposit with a TFuel fee is parsed into operations that `AssembleTx` panics on, for either
  -- type of a deposit and with metadata that give a sequence and a fee.
  pub assemble_tx-eq-panic :
      (θ : Theta) (status : Option String) (tx : DepositStakeTx) (type : TxType) (tfuel : ℤ)
      (meta : List (String × Item library.Float)) (code sequence fee : library.Float)
      → tx.fee.tfuel_wei ≡ some tfuel
      → find_key "type" meta ≡ some (Item.float code)
      → (library.float_byte code ≡ tx_code TxType.deposit_stake_tx)
        ⊎ (library.float_byte code ≡ tx_code TxType.deposit_stake_v2_tx)
      → find_key "sequence" meta ≡ some (Item.float sequence)
      → find_key "fee" meta ≡ some (Item.float fee)
      → (parsed : Metadata) × (ops : List Operation) × (parse_deposit_stake_tx θ status tx type
          ≡ ok (parsed, ops))
        × (assemble_tx library ops meta ≡ panic)
  unfolding parse_deposit_stake_tx assemble_tx assemble_by_type tx_code
  assemble_tx-eq-panic θ status tx type tfuel meta code sequence fee p t c s f =
      let ops = deposit_operations θ status tfuel tx in
      let short =
        assemble_deposit_stake-eq-panic ops meta
          (record { theta_wei = none; tfuel_wei = some (library.float_i64 fee) })
          (library.float_u64 sequence) (deposit_operations-IsShort θ status tfuel tx) in
      (
        deposit_metadata tx type,
        ops,
        rw p,
        elim c [ inl k ↦ rw (t, s, f, k, short) | inr k ↦ rw (t, s, f, k, short) ],
      )
