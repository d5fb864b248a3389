-- ===== src/Block/Once.antt =====
-- A stake is returned once, whatever block requests are answered, repeated or broken off.
use native.Mathlib.Decide.{ℕ_discrete}
use mathlib.Core.List.{List-discrete}
use theta_rosetta_rpc_adapto.Prelude.{
  ℕ, suc, ◌+◌, ◌≤◌, ◌≡◌, refl, sym, ap, ◌∙◌, subst, String, true, false, Option, none, some, List,
  [], ◌∷◌, ◌++◌, ◌=ˢ◌, Bool-cases, inl, inr, if◌then◌else◌, arith, eq_iff,
}
use theta_rosetta_rpc_adapto.Digits.{Bytes}
use theta_rosetta_rpc_adapto.Store.Interface.{Store}
use theta_rosetta_rpc_adapto.StakeService.{ReturnStakeTx, ReturnStakeTxs}
use theta_rosetta_rpc_adapto.Transaction.{holds_hash, extend_returns}
use theta_rosetta_rpc_adapto.Block.Content.{return_hashes}

-- How often a text is in a list.
abbrev pub count : String → List String → ℕ
count h [] = 0
count h (x ∷ xs) = let rest = count h xs in if h =ˢ x then suc rest else rest

pub count-return_hashes_absent :
    (h : String) (rs : ReturnStakeTxs) → holds_hash h rs ≡ false → count h (return_hashes rs) ≡ 0
unfolding holds_hash
count-return_hashes_absent h [] e = refl
count-return_hashes_absent h (r ∷ rs) e = elim (Bool-cases (h =ˢ r.hash)) [
  | inl a ↦ let found : true ≡ false = rw a at e in absurd (cc found)
  | inr a ↦ rw a (count-return_hashes_absent h rs (rw a at e))
]

count-append :
    (h : String) (rs : ReturnStakeTxs) (r : ReturnStakeTx)
    → count h (return_hashes (rs ++ r ∷ [])) ≡ count h (return_hashes rs) + count h (r.hash ∷ [])
count-append h [] r = omega arith
count-append h (q ∷ rs) r = elim (Bool-cases (h =ˢ q.hash)) [
  | inl a ↦ rw a (omega (arith, count-append h rs r))
  | inr a ↦ rw a (count-append h rs r)
]

-- A list to which a return is added: no hash is there more often than before, but one that was not.
count-extend_returns :
    (h : String) (r : ReturnStakeTx) (rs : ReturnStakeTxs)
    → count h (return_hashes rs) ≤ 1
    → (count h (return_hashes rs) ≤ count h (return_hashes (extend_returns r (some rs))))
      × (count h (return_hashes (extend_returns r (some rs))) ≤ 1)
count-extend_returns h r rs p = elim (Bool-cases (holds_hash r.hash rs)) [
  | inl a ↦ rw a (omega arith, p)
  | inr a ↦ elim (Bool-cases (h =ˢ r.hash)) [
    | inl e ↦
        let absent : holds_hash h rs ≡ false =
          ap (λ x. holds_hash x rs) ((eq_iff h r.hash).0 e) ∙ a in
        let none_there = count-return_hashes_absent h rs absent in
        rw (a, count-append h rs r, e) (omega (arith, none_there), omega (arith, none_there))
    | inr e ↦ rw (a, count-append h rs r, e) (omega arith, omega (arith, p))
  ]
]

pub count-holds_hash :
    (h : String) (rs : ReturnStakeTxs) → holds_hash h rs ≡ true → 1 ≤ count h (return_hashes rs)
unfolding holds_hash
count-holds_hash h [] e = absurd (cc e)
count-holds_hash h (r ∷ rs) e = elim (Bool-cases (h =ˢ r.hash)) [
  | inl a ↦ rw a (omega arith)
  | inr a ↦ rw a (count-holds_hash h rs (rw a at e))
]

count-extend_returns_self :
    (r : ReturnStakeTx) (rs : ReturnStakeTxs)
    → count r.hash (return_hashes rs) ≤ 1
    → count r.hash (return_hashes (extend_returns r (some rs))) ≡ 1
count-extend_returns_self r rs p = elim (Bool-cases (holds_hash r.hash rs)) [
  | inl a ↦ rw a (omega (arith, count-holds_hash r.hash rs a, p))
  | inr a ↦
      rw (a, count-append r.hash rs r, (eq_iff r.hash r.hash).1 refl)
        (omega (arith, count-return_hashes_absent r.hash rs a))
]

count_one : (h x : String) → count h (x ∷ []) ≤ 1
count_one h x = elim (Bool-cases (h =ˢ x)) [
  | inl e ↦ rw e (omega arith)
  | inr e ↦ rw e (omega arith)
]

module _ (store : Store ReturnStakeTxs) where
  -- A write that returns an error has written nothing: LevelDB writes a batch whole or not at all.
  abbrev pub IsAtomic : Type 0
  IsAtomic =
      (key : Bytes) (rs : ReturnStakeTxs) (s : store.State)
      → (store.put key rs s).0 ≡ false
      → (j : Bytes) → store.get j (store.put key rs s).1 ≡ store.get j s

  -- What is read back has the hashes that were written, in their order.
  abbrev pub KeepsHashes : Type 0
  KeepsHashes = (rs : ReturnStakeTxs) → return_hashes (store.canon rs) ≡ return_hashes rs

  abbrev pub IsAtMostOnce : String → Bytes → store.State → Type 0
  IsAtMostOnce h k s =
      (rs : ReturnStakeTxs) → store.get k s ≡ some rs → count h (return_hashes rs) ≤ 1

  abbrev pub IsOnce : String → Bytes → store.State → Type 0
  IsOnce h k s =
      (rs : ReturnStakeTxs) × (store.get k s ≡ some rs) × (count h (return_hashes rs) ≡ 1)

  -- What a key holds after a return was added under another or the same one.
  put-cases :
      IsAtomic
      → (k key : Bytes) (r : ReturnStakeTx) (s : store.State) (P : Option ReturnStakeTxs → Type 0)
      → P (store.get k s)
      → P (some (store.canon (extend_returns r (store.get k s))))
      → P (store.get k (store.put key (extend_returns r (store.get key s)) s).1)
  put-cases atomic k key r s P kept added =
      let longer = extend_returns r (store.get key s) in
      elim (Bool-cases (store.put key longer s).0) [
        | inl w ↦ elim (List-discrete ℕ_discrete key k) [
          | yes p ↦
              subst P
                (ap (λ j. some (store.canon (extend_returns r (store.get j s)))) (sym p)
                  ∙ sym (store.get-put_self key longer s w)
                  ∙ ap (λ j. store.get j (store.put key longer s).1) p)
                added
          | no n ↦ subst P (sym (store.get-put_ne key k longer s n)) kept
        ]
        | inr w ↦ subst P (sym (atomic key longer s w k)) kept
      ]

  added-IsAtMostOnce :
      KeepsHashes
      → (h : String) (r : ReturnStakeTx) (before : Option ReturnStakeTxs)
      → ((rs : ReturnStakeTxs) → before ≡ some rs → count h (return_hashes rs) ≤ 1)
      → count h (return_hashes (store.canon (extend_returns r before))) ≤ 1
  added-IsAtMostOnce keeps h r none p = rw (keeps (r ∷ [])) (count_one h r.hash)
  added-IsAtMostOnce keeps h r (some rs) p =
      rw (keeps (extend_returns r (some rs))) (count-extend_returns h r rs (p rs refl)).1

  pub put-IsAtMostOnce :
      KeepsHashes
      → IsAtomic
      → (h : String) (k key : Bytes) (r : ReturnStakeTx) (s : store.State) → IsAtMostOnce h k s
      → IsAtMostOnce h k (store.put key (extend_returns r (store.get key s)) s).1
  put-IsAtMostOnce keeps atomic h k key r s p =
      put-cases atomic k key r s
        (λ held. (rs : ReturnStakeTxs) → held ≡ some rs → count h (return_hashes rs) ≤ 1) p
        (λ rs e.
          let same : store.canon (extend_returns r (store.get k s)) ≡ rs = cc e in
          subst (λ xs. count h (return_hashes xs) ≤ 1) same
            (added-IsAtMostOnce keeps h r (store.get k s) p))

  pub put-IsOnce :
      KeepsHashes
      → IsAtomic
      → (h : String) (k key : Bytes) (r : ReturnStakeTx) (s : store.State) → IsOnce h k s
      → IsOnce h k (store.put key (extend_returns r (store.get key s)) s).1
  put-IsOnce keeps atomic h k key r s (rs, e, c) =
      let (more, most) = count-extend_returns h r rs (omega (arith, c)) in
      put-cases atomic k key r s
        (λ held. (xs : ReturnStakeTxs) × (held ≡ some xs) × (count h (return_hashes xs) ≡ 1))
        (rs, e, c)
        (
          store.canon (extend_returns r (some rs)),
          ap (λ o. some (store.canon (extend_returns r o))) e,
          ap (count h) (keeps (extend_returns r (some rs))) ∙ omega (arith, more, most, c),
        )

  -- What was at most once under the key is there once behind the write of it.
  pub added-IsOnce :
      KeepsHashes
      → (r : ReturnStakeTx) (before : Option ReturnStakeTxs)
      → ((rs : ReturnStakeTxs) → before ≡ some rs → count r.hash (return_hashes rs) ≤ 1)
      → count r.hash (return_hashes (store.canon (extend_returns r before))) ≡ 1
  added-IsOnce keeps r none p = rw (keeps (r ∷ []), (eq_iff r.hash r.hash).1 refl) refl
  added-IsOnce keeps r (some rs) p =
      rw (keeps (extend_returns r (some rs))) (count-extend_returns_self r rs (p rs refl))
