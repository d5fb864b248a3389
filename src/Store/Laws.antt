-- ===== src/Store/Laws.antt =====
-- `KVStore` meets the interface that the handlers use, over any database that is a map and any codec
-- that reads back what it wrote.
use theta_rosetta_rpc_adapto.Prelude.{
  ◌≡◌, ◌≢◌, refl, ◌⊎◌, inl, inr, Bool, true, false, Option, none, some, ap,
}
use theta_rosetta_rpc_adapto.Digits.{Bytes}
use theta_rosetta_rpc_adapto.Store.{
  Failure, not_found, key_not_found, db_failure, codec_failure, Result, done, fail, LevelDb, Rlp,
  rename_not_found, ldb_delete, kv_put, kv_get, kv_delete,
}
use theta_rosetta_rpc_adapto.Store.Interface.{Store}

-- LevelDB's documentation: `Get` returns what was last `Put` under the key, `ErrNotFound` after a
-- `Delete`, and other keys are left alone.
pub record IsMap (db : LevelDb) : Type 0 where
  pub get-put_self :
      (k v : Bytes) (s : db.Contents)
      → (db.put k v s).0 ≡ done tt
      → db.get k (db.put k v s).1 ≡ done v
  pub get-put_ne :
      (k j v : Bytes) (s : db.Contents) → k ≢ j → db.get j (db.put k v s).1 ≡ db.get j s
  pub get-delete_self :
      (k : Bytes) (s : db.Contents)
      → (db.delete k s).0 ≡ done tt
      → db.get k (db.delete k s).1 ≡ fail not_found

-- What was encoded is decoded as `canon` of it (RLP has no nil big integer, for one).
pub record IsCodec {V : Type 0} (rlp : Rlp V) (canon : V → V) : Type 0 where
  pub decode_bytes-encode_to_bytes :
      (v : V) (b : Bytes) → rlp.encode_to_bytes v ≡ done b → rlp.decode_bytes b ≡ done (canon v)

abbrev pub is_done : {A : Type 0} → Result A → Bool
is_done (done a) = true
is_done (fail e) = false

abbrev pub found : {A : Type 0} → Result A → Option A
found (done a) = some a
found (fail e) = none

Result-cases :
    {A : Type 0} (r : Result A) → ((a : A) × (r ≡ done a)) ⊎ ((e : Failure) × (r ≡ fail e))
Result-cases (done a) = inl (a, refl)
Result-cases (fail e) = inr (e, refl)

rename-done : {A : Type 0} (r : Result A) {a : A} → rename_not_found r ≡ done a → r ≡ done a
rename-done (done a) h = h
rename-done (fail not_found) h = absurd (cc h)
rename-done (fail key_not_found) h = absurd (cc h)
rename-done (fail (db_failure n)) h = absurd (cc h)
rename-done (fail (codec_failure n)) h = absurd (cc h)

pub is_done-eq : (r : Result (Unit {0})) → is_done r ≡ true → r ≡ done tt
is_done-eq (done tt) h = refl
is_done-eq (fail e) h = absurd (cc h)

module _ (db : LevelDb) (keyed : IsMap db) {V : Type 0} (rlp : Rlp V) (canon : V → V)
    (codec : IsCodec rlp canon) where
  -- After a `Put` that returned no error, `Get` of the same key returns the value as it comes back
  -- from its encoding.
  pub kv_get-kv_put_self :
      (k : Bytes) (v : V) (s : db.Contents)
      → (kv_put db rlp k v s).0 ≡ done tt
      → kv_get db rlp k (kv_put db rlp k v s).1 ≡ done (canon v)
  unfolding kv_put kv_get
  kv_get-kv_put_self k v s h = elim (Result-cases (rlp.encode_to_bytes v)) [
    | inl (b, e) ↦
        let stored : (db.put k b s).0 ≡ done tt = rw e at h in
        rw (e, keyed.get-put_self k b s stored) (codec.decode_bytes-encode_to_bytes v b e)
    | inr (f, e) ↦ let refused : (fail f) ≡ done tt = rw e at h in absurd (cc refused)
  ]

  -- A `Put`, with or without an error, leaves every other key as it was.
  pub kv_get-kv_put_ne :
      (k j : Bytes) (v : V) (s : db.Contents)
      → k ≢ j
      → kv_get db rlp j (kv_put db rlp k v s).1 ≡ kv_get db rlp j s
  unfolding kv_put kv_get
  kv_get-kv_put_ne k j v s h = elim (Result-cases (rlp.encode_to_bytes v)) [
    | inl (b, e) ↦ rw (e, keyed.get-put_ne k j b s h)
    | inr (f, e) ↦ rw e
  ]

  -- A value that cannot be encoded is not stored, and the database is as it was.
  pub kv_put_unencodable :
      (k : Bytes) (v : V) (e : Failure) (s : db.Contents)
      → rlp.encode_to_bytes v ≡ fail e
      → kv_put db rlp k v s ≡ (fail e, s)
  unfolding kv_put
  kv_put_unencodable k v e s h = rw h

  -- After a `Delete` that returned no error, `Get` of the key fails with "KeyNotFound".
  pub kv_get-kv_delete_self :
      (k : Bytes) (s : db.Contents)
      → (kv_delete db rlp k s).0 ≡ done tt
      → kv_get db rlp k (kv_delete db rlp k s).1 ≡ fail key_not_found
  unfolding kv_delete kv_get ldb_delete
  kv_get-kv_delete_self k s h = rw (keyed.get-delete_self k s (rename-done _ h))

  -- The store that the handlers are given.
  abbrev pub kv_store : Store V
  kv_store = record {
    State = db.Contents;
    get = λ k s. found (kv_get db rlp k s);
    put = λ k v s. let (r, s') = kv_put db rlp k v s in (is_done r, s');
    canon = canon;
    get-put_self = λ k v s h. ap found (kv_get-kv_put_self k v s (is_done-eq _ h));
    get-put_ne = λ k j v s h. ap found (kv_get-kv_put_ne k j v s h);
  }
