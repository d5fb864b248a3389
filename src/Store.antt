-- ===== src/Store.antt =====
-- The key-value store of common/kvstore.go over the database of common/db.go. LevelDB and the RLP
-- codec are not part of the repository: they are parameters, with what the code relies on.
pub mod Interface
pub mod Laws
use theta_rosetta_rpc_adapto.Prelude.{
  ℕ, ◌≡◌, ◌≢◌, Bool, true, false, Option, none, some, ◌/◌, ltb, if◌then◌else◌, ◌*◌,
}
use theta_rosetta_rpc_adapto.Digits.{Bytes}

-- The errors: LevelDB's `ErrNotFound`, the text "KeyNotFound" that stands in for it, any other error
-- of the database, and one of the codec.
pub data Failure : Type 0 where
  not_found key_not_found : Failure
  db_failure codec_failure : ℕ → Failure

pub data Result (A : Type 0) : Type 0 where
  done : A → Result A
  fail : Failure → Result A

-- A LevelDB database: its contents and its operations.
pub record LevelDb : Type 1 where
  pub Contents : Type 0
  pub get : Bytes → Contents → Result Bytes
  pub put : Bytes → Bytes → Contents → Result (Unit {0}) × Contents
  pub delete : Bytes → Contents → Result (Unit {0}) × Contents

-- The RLP codec of a type of values.
pub record Rlp (V : Type 0) : Type 0 where
  pub encode_to_bytes : V → Result Bytes
  pub decode_bytes : Bytes → Result V

-- `NewLDBDatabase` raises the cache and the number of file handles to 16.
abbrev pub at_least_16 : ℕ → ℕ
at_least_16 n = if ltb n 16 then 16 else n

-- The sizes that LevelDB is opened with: file handles, block cache and write buffer.
pub record Options : Type 0 where
  pub open_files_cache_capacity : ℕ
  pub block_cache_capacity : ℕ
  pub write_buffer : ℕ

abbrev pub mebibyte : ℕ
mebibyte = 1048576

pub ldb_options : ℕ → ℕ → Options
ldb_options cache handles = record {
  open_files_cache_capacity = at_least_16 handles;
  block_cache_capacity = at_least_16 cache / 2 * mebibyte;
  write_buffer = at_least_16 cache / 4 * mebibyte;
}

-- `err == leveldb.ErrNotFound` becomes "KeyNotFound".
abbrev pub rename_not_found : {A : Type 0} → Result A → Result A
rename_not_found (fail not_found) = fail key_not_found
rename_not_found (fail key_not_found) = fail key_not_found
rename_not_found (fail (db_failure n)) = fail (db_failure n)
rename_not_found (fail (codec_failure n)) = fail (codec_failure n)
rename_not_found (done a) = done a

-- `if err != nil { return err }`, and on.
abbrev pub and_then : {A B : Type 0} → Result A → (A → Result B) → Result B
and_then (done a) f = f a
and_then (fail e) f = fail e

-- The end of `KVStore.Put`, by what the encoding gave.
abbrev pub put_encoded :
    (db : LevelDb) → Bytes → db.Contents → Result Bytes → Result (Unit {0}) × db.Contents
put_encoded db key s (done encoded) = db.put key encoded s
put_encoded db key s (fail e) = (fail e, s)

module _ (db : LevelDb) where
  unfoldable pub ldb_get : Bytes → db.Contents → Result Bytes
  ldb_get key s = rename_not_found (db.get key s)

  unfoldable pub ldb_delete : Bytes → db.Contents → Result (Unit {0}) × db.Contents
  ldb_delete key s = let (r, s') = db.delete key s in (rename_not_found r, s')

  module _ {V : Type 0} (rlp : Rlp V) where
    -- `KVStore.Put`
    unfoldable pub kv_put : Bytes → V → db.Contents → Result (Unit {0}) × db.Contents
    kv_put key value s = put_encoded db key s (rlp.encode_to_bytes value)

    -- `KVStore.Get`
    unfoldable pub kv_get : Bytes → db.Contents → Result V
    unfolding ldb_get
    kv_get key s = and_then (ldb_get key s) rlp.decode_bytes

    -- `KVStore.Delete`
    unfoldable pub kv_delete : Bytes → db.Contents → Result (Unit {0}) × db.Contents
    kv_delete key s = ldb_delete key s
