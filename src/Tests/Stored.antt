-- ===== src/Tests/Stored.antt =====
-- The store's operations on a database in memory, and the texts and names of single values.
use native.Mathlib.Decide.{ℕ_discrete}
use mathlib.Core.List.{List-discrete}
use theta_rosetta_rpc_adapto.Prelude.{
  ℕ, ◌≡◌, ◌≢◌, ◌<◌, ◌↔◌, refl, ap, true, Option, none, some, [], ◌∷◌, arith,
}
use theta_rosetta_rpc_adapto.Digits.{Bytes}
use theta_rosetta_rpc_adapto.Go.{index, ok}
use theta_rosetta_rpc_adapto.Names.{
  TxType, TxOpType, tx_code, tx_type_string, tx_op_type_string, get_tx_op_type, tx_op_names,
  tx_op_types, tx_op_code, is_supported_construction_type,
}
use theta_rosetta_rpc_adapto.Names.Tables.{
  tx_type_string-eq-declared_name_iff, get_tx_op_type-tx_op_type_string,
}
use theta_rosetta_rpc_adapto.Store.{
  not_found, codec_failure, Result, done, fail, LevelDb, Rlp, kv_put, kv_get,
}
use theta_rosetta_rpc_adapto.Store.Laws.{IsMap, IsCodec, kv_get-kv_put_self}
use theta_rosetta_rpc_adapto.Tests.{table_put, choose-yes, choose-no, empty_table}

abbrev read : Option Bytes → Result Bytes
read none = fail not_found
read (some v) = done v

abbrev memory : LevelDb
memory = record {
  Contents = Bytes → Option Bytes;
  get = λ k s. read (s k);
  put = λ k v s. (done tt, table_put k (some v) s);
  delete = λ k s. (done tt, table_put k none s);
}

memory-IsMap : IsMap memory
memory-IsMap = record {
  get-put_self = λ k v s h. ap read (choose-yes (List-discrete ℕ_discrete k k) (some v) (s k) refl);
  get-put_ne = λ k j v s n. ap read (choose-no (List-discrete ℕ_discrete k j) (some v) (s j) n);
  get-delete_self = λ k s h. ap read (choose-yes (List-discrete ℕ_discrete k k) none (s k) refl);
}

-- Bytes stand for themselves, but for the empty ones.
abbrev encode : Bytes → Result Bytes
encode [] = fail (codec_failure 0)
encode (b ∷ bs) = done (b ∷ bs)

abbrev plain : Rlp Bytes
plain = record { encode_to_bytes = encode; decode_bytes = λ b. done b }

plain_reads : (v b : Bytes) → encode v ≡ done b → done b ≡ done v
plain_reads [] b h = absurd (cc h)
plain_reads (v ∷ vs) b h = cc h

plain-IsCodec : IsCodec plain (λ v. v)
plain-IsCodec = record { decode_bytes-encode_to_bytes = plain_reads }

kv_get-kv_put_self_example :
    kv_get memory plain (1 ∷ []) (kv_put memory plain (1 ∷ []) (7 ∷ []) empty_table).1
    ≡ done (7 ∷ [])
unfolding kv_put
kv_get-kv_put_self_example =
    kv_get-kv_put_self memory memory-IsMap plain (λ v. v) plain-IsCodec (1 ∷ []) (7 ∷ [])
      empty_table refl

abbrev first_byte : Bytes → ℕ
first_byte [] = 0
first_byte (b ∷ bs) = b

abbrev key_one : Bytes
key_one = 1 ∷ []

abbrev key_two : Bytes
key_two = 2 ∷ []

one_ne_two : key_one ≢ key_two
one_ne_two e =
    let same : first_byte key_one ≡ first_byte key_two = ap first_byte e in omega (arith, same)

tx_type_string-eq-declared_name_iff_example :
    (tx_type_string TxType.release_fund_tx ≡ ok "ReleaseFundTx")
    ↔ (tx_code TxType.release_fund_tx < 4)
tx_type_string-eq-declared_name_iff_example =
    tx_type_string-eq-declared_name_iff TxType.release_fund_tx

get_tx_op_type-tx_op_type_string_example :
    (index tx_op_names (tx_op_code TxOpType.tx_fee) ≡ ok (tx_op_type_string TxOpType.tx_fee))
    × (index tx_op_types (tx_op_code TxOpType.tx_fee) ≡ ok (tx_op_type_string TxOpType.tx_fee))
    × (get_tx_op_type (tx_op_type_string TxOpType.tx_fee) ≡ some (tx_op_code TxOpType.tx_fee))
    × (is_supported_construction_type (tx_op_type_string TxOpType.tx_fee) ≡ true)
get_tx_op_type-tx_op_type_string_example = get_tx_op_type-tx_op_type_string TxOpType.tx_fee
