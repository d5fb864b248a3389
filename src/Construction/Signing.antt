-- ===== src/Construction/Signing.antt =====
-- What a signed transaction of `ConstructionCombine` guarantees.
use theta_rosetta_rpc_adapto.Prelude.{
  ◌≡◌, refl, ◌↔◌, String, true, Option, none, some, List, [], ◌∷◌,
}
use theta_rosetta_rpc_adapto.Digits.{Bytes}
use theta_rosetta_rpc_adapto.Hex.{hex_encode, hex_decode}
use theta_rosetta_rpc_adapto.Hex.RoundTrip.{hex_decode-hex_encode}
use theta_rosetta_rpc_adapto.Go.{ok}
use theta_rosetta_rpc_adapto.Wire.{Address, Theta}
use theta_rosetta_rpc_adapto.Block.Endpoints.{
  Config, NetworkIdentifier, response, validate_network_identifier,
}
use theta_rosetta_rpc_adapto.Handler.{Appended, fine, attempt, require, follow, or_refuse, pass}
use theta_rosetta_rpc_adapto.Handler.Ensures.{
  Ensures, >>=-Ensures, give-Ensures, refuse_with-Ensures, or_refuse-Ensures, follow-Ensures,
  attempt-Ensures, require-Ensures, pass-Ensures, weaken,
}
use theta_rosetta_rpc_adapto.Construction.{LedgerTx, send, contract, other, Packages}
use theta_rosetta_rpc_adapto.Construction.Payloads.{read_tx, parse_ledger_tx, construction_parse}
use theta_rosetta_rpc_adapto.Construction.Payloads.SendTrip.{
  IsLedgerCodec, reread, construction_parse-hex_encode,
}
use theta_rosetta_rpc_adapto.Construction.Finish.{
  Signature, exactly_one, signed_by, write_signed, check_and_sign, sign_with, construction_combine,
  construction_hash,
}

exactly_one_inv : (l : List Signature) (x : Signature) → exactly_one l ≡ some x → l ≡ x ∷ []
exactly_one_inv [] x h = absurd (cc h)
exactly_one_inv (y ∷ []) x h = cc h
exactly_one_inv (y ∷ z ∷ l) x h = absurd (cc h)

module _ (packages : Packages) where
  -- A transaction that a signer's signature is set in; those of other types cannot be signed.
  pub data Signs (signer : Address) (sig : Bytes) : LedgerTx → LedgerTx → Type 0 where
    signs_send :
        {tx : _} → Signs signer sig (send tx) (send (packages.set_send_signature signer sig tx))
    signs_contract :
        {tx : _}
        → Signs signer sig (contract tx) (contract (packages.set_contract_signature signer sig tx))

  signed_by-Ensures :
      {signer : Address} {sig : Bytes} {tx : LedgerTx}
      → Ensures (signed_by packages signer sig tx) (Signs signer sig tx)
  unfolding signed_by
  signed_by-Ensures {tx = send tx} = give-Ensures Signs.signs_send
  signed_by-Ensures {tx = contract tx} = give-Ensures Signs.signs_contract
  signed_by-Ensures {tx = other n} = refuse_with-Ensures _ _

  -- The transaction that a hexadecimal text encodes.
  abbrev pub Encodes : Bytes → LedgerTx → Type 0
  Encodes hex tx =
      (raw : Bytes) × (hex_decode hex ≡ some raw) × (packages.tx_from_bytes raw ≡ fine tx)

  read_tx-Ensures : (hex : Bytes) → Ensures (read_tx packages hex) (Encodes hex)
  read_tx-Ensures hex =
      >>=-Ensures (or_refuse-Ensures _ _)
        (λ raw e. weaken (attempt-Ensures _ _) (λ tx f. (raw, e, f)))

  -- A signed transaction that `ConstructionCombine` may respond with.
  pub record IsSigned (config : Config) (unsigned : Bytes) (signatures : List Signature)
      (signed : Bytes) : Type 0 where
    pub tx : LedgerTx
    pub signature : Signature
    pub sig : Bytes
    pub address : String
    pub signed_tx : LedgerTx
    pub raw : Bytes
    pub encoded : Encodes unsigned tx
    pub only_one : signatures ≡ signature ∷ []
    pub read : packages.signature_from_bytes signature.bytes ≡ fine sig
    pub by : signature.signing_address ≡ some address
    pub verified :
        packages.verify sig
          (packages.sign_bytes config.chain_id tx)
          (packages.hex_to_address address)
        ≡ true
    pub set : Signs (packages.hex_to_address address) sig tx signed_tx
    pub written : packages.tx_to_bytes signed_tx ≡ fine raw
    pub shown : signed ≡ hex_encode raw

  -- What is written, of a transaction that is signed.
  abbrev Written : Address → Bytes → LedgerTx → Bytes → Type 0
  Written signer sig tx shown =
      (signed_tx : LedgerTx) × (raw : Bytes) × Signs signer sig tx signed_tx
      × (packages.tx_to_bytes signed_tx ≡ fine raw)
      × (shown ≡ hex_encode raw)

  write_signed-Ensures :
      (signer : Address) (sig : Bytes) (tx : LedgerTx)
      → Ensures (write_signed packages signer sig tx) (Written signer sig tx)
  unfolding write_signed
  write_signed-Ensures signer sig tx =
      >>=-Ensures {m = signed_by packages signer sig tx} signed_by-Ensures (λ signed_tx set.
        >>=-Ensures {m = attempt (packages.tx_to_bytes signed_tx) _ _} (attempt-Ensures _ _)
          (λ raw written. give-Ensures (signed_tx, raw, set, written, refl)))

  check_and_sign-Ensures :
      (config : Config) (tx : LedgerTx) (sig : Bytes) (signer : Address)
      → Ensures (check_and_sign packages config tx sig signer) (λ shown.
        (packages.verify sig (packages.sign_bytes config.chain_id tx) signer ≡ true)
        × Written signer sig tx shown)
  unfolding check_and_sign
  check_and_sign-Ensures config tx sig signer =
      >>=-Ensures
        {m = require (packages.verify sig (packages.sign_bytes config.chain_id tx) signer) _ _}
        (require-Ensures _ _)
        (λ u verified. weaken (write_signed-Ensures signer sig tx) (λ shown w. (verified, w)))

  sign_with-Ensures :
      (config : Config) (tx : LedgerTx) (signature : Signature)
      → Ensures (sign_with packages config tx signature) (λ shown.
        (sig : Bytes) × (address : String) × (packages.signature_from_bytes signature.bytes
          ≡ fine sig)
        × (signature.signing_address ≡ some address)
        × (packages.verify sig
              (packages.sign_bytes config.chain_id tx)
              (packages.hex_to_address address)
            ≡ true)
        × Written (packages.hex_to_address address) sig tx shown)
  unfolding sign_with
  sign_with-Ensures config tx signature =
      >>=-Ensures {m = attempt (packages.signature_from_bytes signature.bytes) _ _}
        (attempt-Ensures _ _)
        (λ sig read.
          >>=-Ensures {m = follow signature.signing_address} follow-Ensures (λ address by.
            weaken (check_and_sign-Ensures config tx sig (packages.hex_to_address address))
              (λ shown (verified, w). (sig, address, read, by, verified, w))))

  combine-Ensures :
      (config : Config) (ni : Option NetworkIdentifier) (unsigned : Bytes)
      (signatures : List Signature)
      → Ensures
          (construction_combine packages config ni unsigned signatures)
          (IsSigned config unsigned signatures)
  unfolding construction_combine
  combine-Ensures config ni unsigned signatures =
      >>=-Ensures {m = pass (validate_network_identifier config ni)} pass-Ensures (λ u v.
        >>=-Ensures {m = read_tx packages unsigned} (read_tx-Ensures unsigned) (λ tx encoded.
          >>=-Ensures {m = or_refuse (exactly_one signatures) _ _} (or_refuse-Ensures _ _)
            (λ signature one.
              weaken (sign_with-Ensures config tx signature)
                (λ shown (sig, address, read, by, verified, (signed_tx, raw, set, written, e)).
                  record {
                    tx = tx;
                    signature = signature;
                    sig = sig;
                    address = address;
                    signed_tx = signed_tx;
                    raw = raw;
                    encoded = encoded;
                    only_one = exactly_one_inv signatures signature one;
                    read = read;
                    by = by;
                    verified = verified;
                    set = set;
                    written = written;
                    shown = e;
                  }))))

  construction_combine-IsSigned :
      (config : Config) (ni : Option NetworkIdentifier) (unsigned : Bytes)
      (signatures : List Signature) (signed : Bytes) (s s' : Appended)
      → construction_combine packages config ni unsigned signatures s ≡ ok (response signed, s')
      → IsSigned config unsigned signatures signed
  construction_combine-IsSigned config ni unsigned signatures signed s s' h =
      (combine-Ensures config ni unsigned signatures).at s signed s' h

  signed_by-Signs :
      (signer : Address) (sig : Bytes) (tx tx' : LedgerTx) (s : Appended)
      → Signs signer sig tx tx'
      → signed_by packages signer sig tx s ≡ ok (response tx', s)
  unfolding signed_by
  signed_by-Signs signer sig tx tx' s Signs.signs_send = refl
  signed_by-Signs signer sig tx tx' s Signs.signs_contract = refl

  -- With a valid network identifier, `ConstructionCombine` responds with a text exactly when there
  -- is one signature, it can be read and names its signer, it verifies for that signer over the
  -- bytes that the decoded unsigned transaction has for the chain, that transaction is a send or a
  -- contract call, and the text is the hexadecimal one of its bytes with the signature set.
  pub construction_combine-eq-response_iff :
      (config : Config) (ni : Option NetworkIdentifier) (unsigned : Bytes)
      (signatures : List Signature) (signed : Bytes) (s : Appended)
      → validate_network_identifier config ni ≡ none
      → (construction_combine packages config ni unsigned signatures s ≡ ok (response signed, s))
        ↔ IsSigned config unsigned signatures signed
  unfolding construction_combine sign_with check_and_sign write_signed
  construction_combine-eq-response_iff config ni unsigned signatures signed s v = (
    construction_combine-IsSigned config ni unsigned signatures signed s s,
    λ w.
        let (raw, d, e) = w.encoded in
        rw (
          v,
          d,
          e,
          w.only_one,
          w.read,
          w.by,
          w.verified,
          signed_by-Signs (packages.hex_to_address w.address) w.sig w.tx w.signed_tx s w.set,
          w.written,
          w.shown,
        ),
  )

  -- What `ConstructionCombine` responds with is the text of an encoded transaction:
  -- `ConstructionHash` of it is the hash of those bytes, and `ConstructionParse` of it, as a signed
  -- one, is what the parser makes of that transaction as it is read back. The network identifier is
  -- valid, and the ledger reads back what it encodes.
  pub construction_hash-construction_combine :
      (θ : Theta) (canon : Option Bytes → Option Bytes) (config : Config)
      (ni : Option NetworkIdentifier) (unsigned : Bytes) (signatures : List Signature)
      (signed : Bytes) (s s' : Appended)
      → IsLedgerCodec packages canon
      → validate_network_identifier config ni ≡ none
      → construction_combine packages config ni unsigned signatures s ≡ ok (response signed, s')
      → (signed_tx : LedgerTx) × (raw : Bytes) × (packages.tx_to_bytes signed_tx ≡ fine raw)
        × (construction_hash packages θ config ni signed s'
            ≡ ok (response (θ.hash_string (packages.hash_of raw)), s'))
        × (construction_parse packages θ config ni true signed s'
            ≡ parse_ledger_tx packages θ true (reread canon signed_tx) s')
  unfolding construction_hash
  construction_hash-construction_combine θ canon config ni unsigned signatures signed s s' codec v
        h =
      let w = construction_combine-IsSigned config ni unsigned signatures signed s s' h in
      (
        w.signed_tx,
        w.raw,
        w.written,
        rw
            (
              v,
              w.shown,
              hex_decode-hex_encode w.raw (codec.encoded_bytes w.signed_tx w.raw w.written),
            )
            refl,
        rw w.shown (
            construction_parse-hex_encode packages θ canon config ni true w.signed_tx w.raw s' codec
              v w.written),
      )
