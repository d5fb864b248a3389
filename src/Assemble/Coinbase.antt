-- ===== src/Assemble/Coinbase.antt =====
-- A coinbase transaction that is parsed is assembled again, but for its height and its signature.
use theta_rosetta_rpc_adapto.Prelude.{
  ℕ, ◌+◌, ◌≡◌, refl, String, Option, none, some, List, [], ◌∷◌, map, All,
}
use theta_rosetta_rpc_adapto.Prelude.Int.{ℤ, pos}
use theta_rosetta_rpc_adapto.Digits.{set_string, big_pointer_string}
use theta_rosetta_rpc_adapto.Digits.RoundTrip.{set_string-big_string}
use theta_rosetta_rpc_adapto.Go.{ok, index}
use theta_rosetta_rpc_adapto.Names.{TxType, tx_code}
use theta_rosetta_rpc_adapto.Wire.{Address, TxOutput, CoinbaseTx, Operation, Theta}
use theta_rosetta_rpc_adapto.Parse.{set_status}
use theta_rosetta_rpc_adapto.Parse.Transfers.{coinbase_outputs, parse_coinbase_tx}
use theta_rosetta_rpc_adapto.Handler.{fine}
use theta_rosetta_rpc_adapto.Construction.{find_key}
use theta_rosetta_rpc_adapto.Assemble.{
  AnyTx, Item, Library, tfuel_only, amount_of, output_for, input_with, assemble_coinbase,
}
use theta_rosetta_rpc_adapto.Assemble.Dispatch.{assemble_by_type, assemble_tx}

abbrev pub HasTfuel : TxOutput → Type 0
HasTfuel output = (z : ℤ) × (output.coins.tfuel_wei ≡ some z)

-- An output without its Theta.
abbrev pub bare : TxOutput → TxOutput
bare output = record {
  address = output.address;
  coins = record { theta_wei = none; tfuel_wei = output.coins.tfuel_wei };
}

module _ (library : Library) (θ : Theta) where
  -- The text of an address is read as that address.
  abbrev pub ReadsAddresses : Type 0
  ReadsAddresses = (a : Address) → library.hex_to_address (θ.address_string a) ≡ a

  output_for-set_status :
      (status : Option String) (op : Operation)
      → output_for library (set_status status op) ≡ output_for library op
  unfolding amount_of
  output_for-set_status none op = refl
  output_for-set_status (some s) op = refl

  outputs-bare :
      (status : Option String) (i : ℕ) (outputs : List TxOutput)
      → ReadsAddresses
      → All HasTfuel outputs
      → map (output_for library) (coinbase_outputs θ status i outputs) ≡ map bare outputs
  unfolding coinbase_outputs amount_of big_pointer_string
  outputs-bare status i [] r h = refl
  outputs-bare status i (output ∷ outputs) r ((z, e), h) = rw (
    output_for-set_status status _,
    outputs-bare status (i + 1) outputs r h,
    r output.address,
    e,
    set_string-big_string z,
  )

  -- The operations of a parsed coinbase transaction whose outputs have TFuel are assembled, with
  -- metadata that give its type, a sequence and a fee, into a coinbase transaction with the same
  -- proposer, with the sequence of the metadata and no TFuel, and the same outputs without their
  -- Theta; the texts of addresses are read back as these addresses. The height is not assembled.
  pub assemble_tx-parse_coinbase_tx :
      (status : Option String) (type : TxType) (tx : CoinbaseTx)
      (meta : List (String × Item library.Float)) (code sequence fee : library.Float)
      → ReadsAddresses
      → All HasTfuel tx.outputs
      → find_key "type" meta ≡ some (Item.float code)
      → library.float_byte code ≡ tx_code TxType.coinbase_tx
      → find_key "sequence" meta ≡ some (Item.float sequence)
      → find_key "fee" meta ≡ some (Item.float fee)
      → assemble_tx library (parse_coinbase_tx θ status tx type).1 meta
        ≡ ok (
            fine (
              AnyTx.coinbase (record {
                proposer =
                    input_with library tx.proposer.address
                      (tfuel_only (pos 0))
                      (library.float_u64 sequence);
                outputs = map bare tx.outputs;
                block_height = 0;
              })))
  unfolding assemble_tx assemble_by_type assemble_coinbase parse_coinbase_tx tx_code index amount_of
      set_string
  assemble_tx-parse_coinbase_tx none type tx meta code sequence fee r h t c s f =
      rw (t, s, f, c, r tx.proposer.address, outputs-bare none 0 tx.outputs r h)
  assemble_tx-parse_coinbase_tx (some status) type tx meta code sequence fee r h t c s f =
      rw (t, s, f, c, r tx.proposer.address, outputs-bare (some status) 0 tx.outputs r h)
