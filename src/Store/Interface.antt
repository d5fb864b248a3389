-- ===== src/Store/Interface.antt =====
-- What the handlers need of a store of values of type `V`: the `Store` of common/kvstore.go with the
-- two operations that they call and the laws that they rely on.
use theta_rosetta_rpc_adapto.Prelude.{◌≡◌, ◌≢◌, Bool, true, Option, some}
use theta_rosetta_rpc_adapto.Digits.{Bytes}

pub record Store (V : Type 0) : Type 1 where
  pub State : Type 0
  -- The value, or `none` where the call returns an error.
  pub get : Bytes → State → Option V
  -- Whether the call returns no error.
  pub put : Bytes → V → State → Bool × State
  -- A value as it comes back from its encoding.
  pub canon : V → V
  pub get-put_self :
      (k : Bytes) (v : V) (s : State) → (put k v s).0 ≡ true → get k (put k v s).1 ≡ some (canon v)
  pub get-put_ne : (k j : Bytes) (v : V) (s : State) → k ≢ j → get j (put k v s).1 ≡ get j s
