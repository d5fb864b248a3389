-- ===== src/Handler.antt =====
-- A request's handler over the messages of the errors. services/construction.go appends to the
-- message of an error that all requests share (`terr := cmn.ErrInvalidInputParam; terr.Message += …`):
-- the variable is a pointer. An error in a response is that pointer, so its text is the one that the
-- messages hold when the response is written out.
pub mod Messages
pub mod Ensures
use theta_rosetta_rpc_adapto.Prelude.{
  ℕ, String, Bool, true, false, Option, none, some, List, [], ◌∷◌, ◌++◌, ◌==◌, if◌then◌else◌,
}
use theta_rosetta_rpc_adapto.Go.{Go, ok, panic}
use theta_rosetta_rpc_adapto.Errors.{ApiError}
use theta_rosetta_rpc_adapto.Block.Endpoints.{
  Config, NetworkIdentifier, Response, response, refused, validate_network_identifier, guard_online,
}

-- For each error's code, the texts that were appended to its message as it is declared.
abbrev pub Appended : Type 0
Appended = ℕ → List String

abbrev pub nothing_appended : Appended
nothing_appended code = []

-- `terr.Message += text`
unfoldable pub add_text : ℕ → String → Appended → Appended
add_text code text s j = if code == j then s j ++ text ∷ [] else s j

abbrev pub Handler : Type 0 → Type 0
Handler A = Appended → Go (Response A × Appended)

-- The rest of a handler, where no error has been returned.
abbrev pub proceed :
    {A B : Type 0} → (A → Handler B) → Go (Response A × Appended) → Go (Response B × Appended)
proceed f (ok (response a, s)) = f a s
proceed f (ok (refused e, s)) = ok (refused e, s)
proceed f panic = panic

infixl 5 ◌>>=◌ ◌>>◌
abbrev pub ◌>>=◌ : {A B : Type 0} → Handler A → (A → Handler B) → Handler B
◌>>=◌ m f s = proceed f (m s)

abbrev pub ◌>>◌ : {B : Type 0} → Handler (Unit {0}) → Handler B → Handler B
m >> k = m >>= λ u. k

abbrev pub give : {A : Type 0} → A → Handler A
give a s = ok (response a, s)

-- An error with its message as it stands.
abbrev pub refuse : {A : Type 0} → ApiError → Handler A
refuse e s = ok (refused e, s)

-- An error whose message is made longer.
abbrev pub refuse_with : {A : Type 0} → ApiError → String → Handler A
refuse_with e text s = ok (refused e, add_text e.code text s)

abbrev pub crash : {A : Type 0} → Handler A
crash s = panic

-- A value or a panic.
abbrev pub run_go : {A : Type 0} → Go A → Handler A
run_go (ok a) = give a
run_go panic = crash

abbrev pub follow : {A : Type 0} → Option A → Handler A
follow (some a) = give a
follow none = crash

-- A value, or the error where it is missing.
abbrev pub or_refuse : {A : Type 0} → Option A → ApiError → String → Handler A
or_refuse (some a) e text = give a
or_refuse none e text = refuse_with e text

abbrev pub require : Bool → ApiError → String → Handler (Unit {0})
require true e text = give tt
require false e text = refuse_with e text

abbrev pub pass : Option ApiError → Handler (Unit {0})
pass none = give tt
pass (some e) = refuse e

-- A result of a package's function, or the text of its error.
pub data Fallible (A : Type 0) : Type 0 where
  fine : A → Fallible A
  error : String → Fallible A

-- `if err != nil { terr := e; terr.Message += explain(err); return nil, terr }`
abbrev pub attempt : {A : Type 0} → Fallible A → ApiError → (String → String) → Handler A
attempt (fine a) e explain = give a
attempt (error text) e explain = refuse_with e (explain text)

-- The two guards.
abbrev pub valid_network : Config → Option NetworkIdentifier → Handler (Unit {0})
valid_network config ni = pass (validate_network_identifier config ni)

abbrev pub online_network : Config → Option NetworkIdentifier → Handler (Unit {0})
online_network config ni = pass (guard_online config ni)
