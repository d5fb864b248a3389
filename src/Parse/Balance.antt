-- ===== src/Parse/Balance.antt =====
-- What a transaction's operations add up to in a currency, read back from the decimal texts of
-- their amounts.
pub mod SendBalance
pub mod ContractBalance
pub mod FundBalance
use theta_rosetta_rpc_adapto.Prelude.{
  ℕ, zero, suc, ◌+◌, ◌*◌, ◌≡◌, refl, String, Bool, true, false, Option, none, some, List, [], ◌∷◌,
  ◌++◌, ◌=ˢ◌, if◌then◌else◌, arith, Bool-cases, ap,
}
use theta_rosetta_rpc_adapto.Prelude.Int.{ℤ, pos, ◌+ℤ◌, pos_part, neg_part, sub_ℕ, int_laws}
use theta_rosetta_rpc_adapto.Digits.{Bytes, big_string, set_string}
use theta_rosetta_rpc_adapto.Digits.RoundTrip.{set_string-big_string}
use theta_rosetta_rpc_adapto.Names.{Currency}
use theta_rosetta_rpc_adapto.Wire.{Amount, Operation}
use theta_rosetta_rpc_adapto.Parse.{Emitter, set_status, link, emit}

-- A text that is no number counts as zero.
abbrev pub or_none : Option ℤ → ℤ
or_none none = pos 0
or_none (some z) = z

abbrev pub contribution : String → Amount → ℤ
contribution symbol amount =
    if amount.currency.symbol =ˢ symbol then or_none (set_string amount.value) else pos 0

-- The sum of the operations' amounts in the currency with this symbol.
unfoldable pub net : String → List Operation → ℤ
net symbol [] = pos 0
net symbol (op ∷ ops) = contribution symbol op.amount +ℤ net symbol ops

pub net-append :
    (symbol : String) (xs ys : List Operation)
    → net symbol (xs ++ ys) ≡ net symbol xs +ℤ net symbol ys
unfolding net
net-append symbol [] ys = omega int_laws
net-append symbol (x ∷ xs) ys = rw (net-append symbol xs ys) (omega int_laws)

-- The stamp and the link leave the amount alone.
pub stamped-amount :
    (status : Option String) (op : Operation) → (set_status status op).amount ≡ op.amount
stamped-amount none op = refl
stamped-amount (some s) op = refl

linked-amount : (n : ℕ) (op : Operation) → (link n op).amount ≡ op.amount
linked-amount zero op = refl
linked-amount (suc n) op = refl

pub net-emit :
    (symbol : String) (status : Option String) (op : Operation) (e : Emitter)
    → net symbol (emit status op e).ops ≡ net symbol e.ops +ℤ contribution symbol op.amount
unfolding net emit
net-emit symbol status op e =
    rw
      (
        net-append symbol e.ops _,
        linked-amount e.next (set_status status op),
        stamped-amount status op,
      )
      (omega int_laws)

-- An operation whose value the parser printed adds that value in its own currency.
module _ (symbol : String) (status : Option String) (op : Operation) (e : Emitter) (z : ℤ)
    (printed : op.amount.value ≡ big_string z) where
  pub net-emit_same :
      (op.amount.currency.symbol =ˢ symbol) ≡ true
      → net symbol (emit status op e).ops ≡ net symbol e.ops +ℤ z
  net-emit_same h = rw (net-emit symbol status op e, h, printed, set_string-big_string)

  pub net-emit_other :
      (op.amount.currency.symbol =ˢ symbol) ≡ false
      → net symbol (emit status op e).ops ≡ net symbol e.ops +ℤ pos 0
  net-emit_other h = rw (net-emit symbol status op e, h)

-- An equation of integers, as one of numbers.
pub parts : {a b : ℤ} → a ≡ b → pos_part a + neg_part b ≡ pos_part b + neg_part a
parts {a} {b} e = rw e
