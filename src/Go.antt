-- ===== src/Go.antt =====
-- What a Go call may come to: a value, or a panic (a nil dereference, an index out of range, or an
-- explicit `panic`). No caller in the repository recovers.
use theta_rosetta_rpc_adapto.Prelude.{ℕ, Option, none, some, List, zero, suc, [], ◌∷◌}

pub data Go {ℓ} (A : Type ℓ) : Type ℓ where
  ok : A → Go A
  panic : Go A

infixl 5 ◌>>=◌
abbrev pub ◌>>=◌ {ℓ κ} : {A : Type ℓ} {B : Type κ} → Go A → (A → Go B) → Go B
ok a >>= f = f a
panic >>= f = panic

-- Following a pointer.
abbrev pub deref {ℓ} : {A : Type ℓ} → Option A → Go A
deref none = panic
deref (some a) = ok a

-- `a[i]`
unfoldable pub index {ℓ} : {A : Type ℓ} → List A → ℕ → Go A
index [] i = panic
index (x ∷ xs) zero = ok x
index (x ∷ xs) (suc i) = index xs i
