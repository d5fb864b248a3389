-- ===== src/Parse/Sequence.antt =====
-- The order that the Rosetta API asks of a transaction's operations, and how the shared parts of
-- the parsers keep it.
pub mod TransferOrder
pub mod FundOrder
pub mod ContractOrder
pub mod StakeOrder
use theta_rosetta_rpc_adapto.Prelude.{
  ℕ, zero, suc, ◌+◌, ◌<◌, ◌≡◌, ◌≢◌, refl, subst, ◌⊎◌, inl, inr, String, Bool, true, false, Option,
  none, some, List, [], ◌∷◌, ◌++◌, length, length-append, arith, Option-cases, Bool-cases,
}
use theta_rosetta_rpc_adapto.Prelude.Int.{ℤ, pos, negsuc}
use theta_rosetta_rpc_adapto.Go.{Go, ok, panic}
use theta_rosetta_rpc_adapto.Wire.{Metadata, Coins, Operation}
use theta_rosetta_rpc_adapto.Parse.{
  Emitter, no_ops, set_status, link, append, emit, emit_coin, emit_nonzero, has_bits,
}

-- Every related index is that of an operation before number `n`.
abbrev pub RefersBack : ℕ → List ℤ → Type 0
RefersBack n [] = Unit
RefersBack n (pos m ∷ related) = (m < n) × RefersBack n related
RefersBack n (negsuc m ∷ related) = ⊥

-- An operation that is number `n`: its index is `n`, it carries the status, and it relates to
-- earlier operations alone.
abbrev pub IsPlaced : Option String → ℕ → Operation → Type 0
IsPlaced status n op = (op.identifier ≡ pos n) × (op.status ≡ status) × RefersBack n op.related

-- The operations are numbered on from `n`.
abbrev pub IsSequenced : Option String → ℕ → List Operation → Type 0
IsSequenced status n [] = Unit
IsSequenced status n (op ∷ ops) = IsPlaced status n op × IsSequenced status (suc n) ops

-- What holds of the index and the slice while a parser runs.
abbrev pub IsRunning : Option String → Emitter → Type 0
IsRunning status e = IsSequenced status 0 e.ops × (length e.ops ≡ e.next)

-- A fresh operation is placed by the stamp and the link; the first one keeps what it relates to.
link-IsPlaced :
    (status : Option String) (n : ℕ) (op : Operation)
    → op.identifier ≡ pos n
    → op.status ≡ none
    → (n ≡ 0 → RefersBack 0 op.related)
    → IsPlaced status n (link n (set_status status op))
link-IsPlaced none zero op i s r = (i, s, r refl)
link-IsPlaced (some t) zero op i s r = (i, refl, r refl)
link-IsPlaced none (suc n) op i s r = (i, s, (omega arith, tt))
link-IsPlaced (some t) (suc n) op i s r = (i, refl, (omega arith, tt))

-- The stamp alone, for an operation that is built with its index and its related operations.
pub stamp-IsPlaced :
    (status : Option String) (n : ℕ) (op : Operation)
    → op.identifier ≡ pos n
    → (op.status ≡ none) ⊎ (op.status ≡ status)
    → RefersBack n op.related
    → IsPlaced status n (set_status status op)
stamp-IsPlaced none n op i (inl s) r = (i, s, r)
stamp-IsPlaced none n op i (inr s) r = (i, s, r)
stamp-IsPlaced (some t) n op i s r = (i, refl, r)

-- A parser's result is a transaction's operations in order, and no panic.
abbrev pub Yields : Option String → Go (Metadata × List Operation) → Type 0
Yields status (ok (meta, ops)) = IsSequenced status 0 ops
Yields status panic = ⊥

module _ (status : Option String) where
  IsSequenced-append :
      (n k : ℕ) (ops : List Operation) (op : Operation)
      → IsSequenced status n ops
      → n + length ops ≡ k
      → IsPlaced status k op
      → IsSequenced status n (ops ++ op ∷ [])
  IsSequenced-append n k [] op h e p = let same : k ≡ n = omega arith in (rw same at p, tt)
  IsSequenced-append n k (o ∷ ops) op h e p =
      (h.0, IsSequenced-append (suc n) k ops op h.1 (omega arith) p)

  append-IsRunning :
      (op : Operation) (e : Emitter)
      → IsRunning status e
      → IsPlaced status e.next op
      → IsRunning status (append op e)
  append-IsRunning op e h p = (
    IsSequenced-append 0 e.next e.ops op h.0 (omega (arith, h.1)) p,
    omega (arith, length-append e.ops (op ∷ []), h.1),
  )

  pub emit-IsRunning :
      (op : Operation) (e : Emitter)
      → IsRunning status e
      → op.identifier ≡ pos e.next
      → op.status ≡ none
      → (e.next ≡ 0 → RefersBack 0 op.related)
      → IsRunning status (emit status op e)
  unfolding emit
  emit-IsRunning op e h i s r =
      append-IsRunning (link e.next (set_status status op)) e h
        (link-IsPlaced status e.next op i s r)

  -- The same for an operation that is built where the parser stands, and that relates to nothing.
  pub emit_coin-IsRunning :
      (coin : Option ℤ) (build : ℕ → ℤ → Operation) (e : Emitter)
      → IsRunning status e
      → ((i : ℕ) (z : ℤ) → (build i z).identifier ≡ pos i)
      → ((i : ℕ) (z : ℤ) → (build i z).status ≡ none)
      → ((z : ℤ) → e.next ≡ 0 → RefersBack 0 (build e.next z).related)
      → IsRunning status (emit_coin status coin build e)
  unfolding emit_coin emit
  emit_coin-IsRunning none build e h i s r = h
  emit_coin-IsRunning (some z) build e h i s r =
      emit-IsRunning (build e.next z) e h (i e.next z) (s e.next z) (r z)

  -- A coin that is there leaves an operation behind.
  pub emit_coin-next_pos :
      (coin : Option ℤ) (build : ℕ → ℤ → Operation) (e : Emitter)
      → (0 < e.next) ⊎ (coin ≢ none)
      → 0 < (emit_coin status coin build e).next
  unfolding emit_coin emit
  emit_coin-next_pos none build e (inl p) = p
  emit_coin-next_pos none build e (inr h) = absurd (h refl)
  emit_coin-next_pos (some z) build e h = omega arith

  IsSequenced-append_left :
      (n : ℕ) (xs ys : List Operation) → IsSequenced status n (xs ++ ys) → IsSequenced status n xs
  IsSequenced-append_left n [] ys h = tt
  IsSequenced-append_left n (x ∷ xs) ys h = (h.0, IsSequenced-append_left (suc n) xs ys h.1)

  -- What was emitted before is in order if all is.
  pub emit_coin-IsSequenced_before :
      (coin : Option ℤ) (build : ℕ → ℤ → Operation) (e : Emitter)
      → IsSequenced status 0 (emit_coin status coin build e).ops
      → IsSequenced status 0 e.ops
  unfolding emit_coin emit
  emit_coin-IsSequenced_before none build e h = h
  emit_coin-IsSequenced_before (some z) build e h = IsSequenced-append_left 0 e.ops _ h

  pub emit-IsSequenced_before :
      (op : Operation) (e : Emitter)
      → IsSequenced status 0 (emit status op e).ops
      → IsSequenced status 0 e.ops
  unfolding emit
  emit-IsSequenced_before op e h = IsSequenced-append_left 0 e.ops _ h

pub emit_nonzero-IsRunning :
    (coin : Option ℤ) (build : ℕ → ℤ → Operation) (e : Emitter)
    → IsRunning none e
    → ((i : ℕ) (z : ℤ) → (build i z).identifier ≡ pos i)
    → ((i : ℕ) (z : ℤ) → (build i z).status ≡ none)
    → ((z : ℤ) → e.next ≡ 0 → RefersBack 0 (build e.next z).related)
    → IsRunning none (emit_nonzero coin build e)
unfolding emit_nonzero
emit_nonzero-IsRunning none build e h i s r = h
emit_nonzero-IsRunning (some z) build e h i s r = elim (Bool-cases (has_bits z)) [
  | inl t ↦ rw t (emit-IsRunning none (build e.next z) e h (i e.next z) (s e.next z) (r z))
  | inr f ↦ rw f h
]

-- A slice that starts with an operation that relates to index 1 is out of order.
pub first_refers_ahead :
    (status : Option String) (op : Operation)
    → op.related ≡ pos 1 ∷ []
    → ¬ IsSequenced status 0 (emit status op no_ops).ops
unfolding emit
first_refers_ahead none op r h =
    let ahead : (1 < 0) × Unit {0} = subst (RefersBack 0) r h.0.2 in absurd (omega arith)
first_refers_ahead (some t) op r h =
    let ahead : (1 < 0) × Unit {0} = subst (RefersBack 0) r h.0.2 in absurd (omega arith)

-- So is one that relates to the index before the first.
pub first_refers_below :
    (status : Option String) (op : Operation)
    → op.related ≡ negsuc 0 ∷ []
    → ¬ IsSequenced status 0 (emit status op no_ops).ops
unfolding emit
first_refers_below none op r h = subst (RefersBack 0) r h.0.2
first_refers_below (some t) op r h = subst (RefersBack 0) r h.0.2

-- One coin at least is there.
abbrev pub HasCoins : Coins → Type 0
HasCoins coins = (coins.theta_wei ≢ none) ⊎ (coins.tfuel_wei ≢ none)

pub HasCoins-cases :
    (coins : Coins) → HasCoins coins ⊎ ((coins.theta_wei ≡ none) × (coins.tfuel_wei ≡ none))
HasCoins-cases coins = elim (Option-cases coins.theta_wei) [
  | inr (z, e) ↦ inl (inl (λ n. cc))
  | inl t ↦ elim (Option-cases coins.tfuel_wei) [
    | inr (z, e) ↦ inl (inr (λ n. cc))
    | inl f ↦ inr (t, f)
  ]
]
