-- ===== src/Handler/Ensures.antt =====
-- What a handler's response says of its steps.
use theta_rosetta_rpc_adapto.Prelude.{
  ◌≡◌, refl, subst, String, Option, none, some, Bool, true, false, if◌then◌else◌,
}
use theta_rosetta_rpc_adapto.Go.{Go, ok, panic}
use theta_rosetta_rpc_adapto.Errors.{ApiError}
use theta_rosetta_rpc_adapto.Block.Endpoints.{Response, response, refused}
use theta_rosetta_rpc_adapto.Handler.{
  Appended, Handler, proceed, ◌>>=◌, give, refuse_with, run_go, follow, or_refuse, require, pass,
  Fallible, fine, error, attempt,
}

-- Whatever it responds with, from whatever messages, is as `P` says.
pub record Ensures {A : Type 0} (h : Handler A) (P : A → Type 0) : Type 0 where
  pub at : (s : Appended) (a : A) (s' : Appended) → h s ≡ ok (response a, s') → P a

module _ {A : Type 0} where
  proceed-Ensures :
      {B : Type 0} {P : A → Type 0} {Q : B → Type 0} (f : A → Handler B)
      (r : Go (Response A × Appended))
      → ((a : A) (s1 : Appended) → r ≡ ok (response a, s1) → P a)
      → ((a : A) → P a → Ensures (f a) Q)
      → (b : B) (s' : Appended) → proceed f r ≡ ok (response b, s')
      → Q b
  proceed-Ensures f (ok (response a, s1)) p k b s' h = (k a (p a s1 refl)).at s1 b s' h
  proceed-Ensures f (ok (refused e, s1)) p k b s' h = absurd (cc h)
  proceed-Ensures f panic p k b s' h = absurd (cc h)

  -- Steps in order.
  pub >>=-Ensures :
      {B : Type 0} {m : Handler A} {f : A → Handler B} {P : A → Type 0} {Q : B → Type 0}
      → Ensures m P
      → ((a : A) → P a → Ensures (f a) Q)
      → Ensures (m >>= f) Q
  >>=-Ensures {B} {m} {f} {P} {Q} p k = record {
    at = λ s b s' h. proceed-Ensures f (m s) (p.at s) k b s' h;
  }

  pub give-Ensures : {a : A} {P : A → Type 0} → P a → Ensures (give a) P
  give-Ensures {P = P} p = record { at = λ s b s' h. subst P (cc h) p }

  pub refuse_with-Ensures :
      (e : ApiError) (text : String) {P : A → Type 0} → Ensures (refuse_with {A = A} e text) P
  refuse_with-Ensures e text = record { at = λ s b s' h. absurd (cc h) }

  pub or_refuse-Ensures :
      {o : Option A} (e : ApiError) (text : String) → Ensures (or_refuse o e text) (λ a. o ≡ some a)
  or_refuse-Ensures {o = some x} e text = record { at = λ s a s' h. cc h }
  or_refuse-Ensures {o = none} e text = record { at = λ s a s' h. absurd (cc h) }

  pub follow-Ensures : {o : Option A} → Ensures (follow o) (λ a. o ≡ some a)
  follow-Ensures {o = some x} = record { at = λ s a s' h. cc h }
  follow-Ensures {o = none} = record { at = λ s a s' h. absurd (cc h) }

  pub run_go-Ensures : {m : Go A} → Ensures (run_go m) (λ a. m ≡ ok a)
  run_go-Ensures {m = ok x} = record { at = λ s a s' h. cc h }
  run_go-Ensures {m = panic} = record { at = λ s a s' h. absurd (cc h) }

  pub attempt-Ensures :
      {f : Fallible A} (e : ApiError) (explain : String → String)
      → Ensures (attempt f e explain) (λ a. f ≡ fine a)
  attempt-Ensures {f = fine x} e explain = record { at = λ s a s' h. cc h }
  attempt-Ensures {f = error text} e explain = record { at = λ s a s' h. absurd (cc h) }

  -- Nothing is asked of it.
  pub any-Ensures : {h : Handler A} → Ensures h (λ a. Unit {0})
  any-Ensures = record { at = λ s a s' h. tt }

  pub if-Ensures :
      (b : Bool) {h k : Handler A} {P : A → Type 0}
      → Ensures h P
      → Ensures k P
      → Ensures (if b then h else k) P
  if-Ensures true p q = p
  if-Ensures false p q = q

  pub weaken :
      {h : Handler A} {P Q : A → Type 0} → Ensures h P → ((a : A) → P a → Q a) → Ensures h Q
  weaken p k = record { at = λ s a s' h. k a (p.at s a s' h) }

pub require-Ensures :
    {b : Bool} (e : ApiError) (text : String) → Ensures (require b e text) (λ u. b ≡ true)
require-Ensures {b = true} e text = record { at = λ s a s' h. refl }
require-Ensures {b = false} e text = record { at = λ s a s' h. absurd (cc h) }

pub pass-Ensures : {o : Option ApiError} → Ensures (pass o) (λ u. o ≡ none)
pass-Ensures {o = none} = record { at = λ s a s' h. refl }
pass-Ensures {o = some e} = record { at = λ s a s' h. absurd (cc h) }
