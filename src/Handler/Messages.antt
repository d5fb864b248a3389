-- ===== src/Handler/Messages.antt =====
-- What a handler may do to the messages.
use theta_rosetta_rpc_adapto.Prelude.{
  ◌≡◌, refl, subst, ◌⊎◌, inl, inr, String, Option, none, some, if◌then◌else◌, Bool, true, false,
}
use theta_rosetta_rpc_adapto.Go.{Go, ok, panic}
use theta_rosetta_rpc_adapto.Errors.{ApiError}
use theta_rosetta_rpc_adapto.Block.Endpoints.{Response, response, refused}
use theta_rosetta_rpc_adapto.Handler.{
  Appended, add_text, Handler, proceed, ◌>>=◌, give, refuse, refuse_with, crash, run_go, follow,
  or_refuse, require, pass, Fallible, fine, error, attempt,
}

-- A response leaves the messages alone; an error leaves them alone or makes its own one text longer.
abbrev pub Touches : {A : Type 0} → Appended → Go (Response A × Appended) → Type 0
Touches s (ok (response a, s')) = s' ≡ s
Touches s (ok (refused e, s')) = (s' ≡ s) ⊎ ((text : String) × (s' ≡ add_text e.code text s))
Touches s panic = Unit

pub record TouchesOwn {A : Type 0} (h : Handler A) : Type 0 where
  pub at : (s : Appended) → Touches s (h s)

module _ {A : Type 0} where
  pub give-TouchesOwn : (a : A) → TouchesOwn (give a)
  give-TouchesOwn a = record { at = λ s. refl }

  pub refuse-TouchesOwn : (e : ApiError) → TouchesOwn (refuse {A = A} e)
  refuse-TouchesOwn e = record { at = λ s. inl refl }

  pub refuse_with-TouchesOwn :
      (e : ApiError) (text : String) → TouchesOwn (refuse_with {A = A} e text)
  refuse_with-TouchesOwn e text = record { at = λ s. inr (text, refl) }

  pub crash-TouchesOwn : TouchesOwn (crash {A = A})
  crash-TouchesOwn = record { at = λ s. tt }

  pub run_go-TouchesOwn : (m : Go A) → TouchesOwn (run_go m)
  run_go-TouchesOwn (ok a) = record { at = λ s. refl }
  run_go-TouchesOwn panic = record { at = λ s. tt }

  pub follow-TouchesOwn : (o : Option A) → TouchesOwn (follow o)
  follow-TouchesOwn (some a) = record { at = λ s. refl }
  follow-TouchesOwn none = record { at = λ s. tt }

  pub or_refuse-TouchesOwn :
      (o : Option A) (e : ApiError) (text : String) → TouchesOwn (or_refuse o e text)
  or_refuse-TouchesOwn (some a) e text = record { at = λ s. refl }
  or_refuse-TouchesOwn none e text = record { at = λ s. inr (text, refl) }

  pub attempt-TouchesOwn :
      (f : Fallible A) (e : ApiError) (explain : String → String) → TouchesOwn (attempt f e explain)
  attempt-TouchesOwn (fine a) e explain = record { at = λ s. refl }
  attempt-TouchesOwn (error text) e explain = record { at = λ s. inr (explain text, refl) }

pub require-TouchesOwn : (b : Bool) (e : ApiError) (text : String) → TouchesOwn (require b e text)
require-TouchesOwn true e text = record { at = λ s. refl }
require-TouchesOwn false e text = record { at = λ s. inr (text, refl) }

pub pass-TouchesOwn : (o : Option ApiError) → TouchesOwn (pass o)
pass-TouchesOwn none = record { at = λ s. refl }
pass-TouchesOwn (some e) = record { at = λ s. inl refl }

proceed-Touches :
    {A B : Type 0} (f : A → Handler B) (s : Appended) (r : Go (Response A × Appended))
    → Touches s r
    → ((a : A) → TouchesOwn (f a))
    → Touches s (proceed f r)
proceed-Touches f s (ok (response a, s')) t k = subst (λ u. Touches u (f a s')) t ((k a).at s')
proceed-Touches f s (ok (refused e, s')) t k = t
proceed-Touches f s panic t k = tt

pub >>=-TouchesOwn :
    {A B : Type 0} {m : Handler A} {f : A → Handler B}
    → TouchesOwn m
    → ((a : A) → TouchesOwn (f a))
    → TouchesOwn (m >>= f)
>>=-TouchesOwn {A} {B} {m} {f} t k = record { at = λ s. proceed-Touches f s (m s) (t.at s) k }

pub if-TouchesOwn :
    {A : Type 0} (b : Bool) {h k : Handler A}
    → TouchesOwn h
    → TouchesOwn k
    → TouchesOwn (if b then h else k)
if-TouchesOwn true t u = t
if-TouchesOwn false t u = u

pub ruleset touch_rules = (
  give-TouchesOwn, refuse-TouchesOwn, refuse_with-TouchesOwn, crash-TouchesOwn, run_go-TouchesOwn,
  follow-TouchesOwn, or_refuse-TouchesOwn, attempt-TouchesOwn, require-TouchesOwn, pass-TouchesOwn,
  >>=-TouchesOwn, if-TouchesOwn,
)
