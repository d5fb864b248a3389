-- ===== src/Session/Log.antt =====
-- What the messages are after any requests: a log of the texts that errors were returned with.
use theta_rosetta_rpc_adapto.Prelude.{
  ℕ, ◌≡◌, refl, sym, ◌∙◌, ap, subst, ◌⊎◌, inl, inr, String, Option, List, [], ◌∷◌, ◌++◌, ◌==◌,
  if◌then◌else◌, append_assoc, append-nil, Bool-cases,
}
use theta_rosetta_rpc_adapto.Go.{Go, ok, panic}
use theta_rosetta_rpc_adapto.Errors.{ApiError}
use theta_rosetta_rpc_adapto.Block.Endpoints.{NetworkIdentifier, Response, response, refused}
use theta_rosetta_rpc_adapto.Handler.{Appended, add_text}
use theta_rosetta_rpc_adapto.Handler.Messages.{Touches}
use theta_rosetta_rpc_adapto.Construction.{Packages}
use theta_rosetta_rpc_adapto.Construction.Refusals.{
  construction_derive-TouchesOwn, construction_preprocess-TouchesOwn,
  construction_metadata-TouchesOwn, construction_payloads-TouchesOwn, construction_parse-TouchesOwn,
  construction_combine-TouchesOwn, construction_hash-TouchesOwn, construction_submit-TouchesOwn,
}
use theta_rosetta_rpc_adapto.Account.Refusals.{
  account_balance-TouchesOwn, account_coins-TouchesOwn, network_list-TouchesOwn,
  network_status-TouchesOwn, network_options-TouchesOwn,
}
use theta_rosetta_rpc_adapto.Session.{
  Environment, Endpoint, Request, Outcome, failed, settle, serve_at, serve, run,
}

-- The codes and texts that were written, oldest first.
abbrev pub Log : Type 0
Log = List (ℕ × String)

-- The texts of one code.
abbrev pub texts_of : Log → ℕ → List String
texts_of [] j = []
texts_of ((code, text) ∷ log) j = if code == j then text ∷ texts_of log j else texts_of log j

-- A log that outcomes explain: in their order, and each failure writes one text at most, of its own
-- code; nothing else writes.
pub data Explains : List Outcome → Log → Type 0 where
  nothing : Explains [] []
  silent : {o : Outcome} {os : List Outcome} {log : Log} → Explains os log → Explains (o ∷ os) log
  spoken :
      {e : ApiError} {text : String} {os : List Outcome} {log : Log}
      → Explains os log
      → Explains (failed e ∷ os) ((e.code, text) ∷ log)

-- One outcome: the messages are as before, or one text longer.
abbrev Spoke : Appended → Outcome × Appended → Type 0
Spoke s (o, s') =
    (s' ≡ s) ⊎ ((e : ApiError) × (text : String) × (o ≡ failed e) × (s' ≡ add_text e.code text s))

settle-Spoke :
    {A : Type 0} (s : Appended) (r : Go (Response A × Appended))
    → Touches s r
    → Spoke s (settle s r)
settle-Spoke s (ok (response a, s')) t = inl t
settle-Spoke s (ok (refused e, s')) (inl t) = inl t
settle-Spoke s (ok (refused e, s')) (inr (text, t)) = inr (e, text, refl, t)
settle-Spoke s panic t = inl refl

add_text-texts_of :
    (code : ℕ) (text : String) (s : Appended) (log : Log) (j : ℕ)
    → add_text code text s j ++ texts_of log j ≡ s j ++ texts_of ((code, text) ∷ log) j
unfolding add_text
add_text-texts_of code text s log j = elim (Bool-cases (code == j)) [
  | inl e ↦ rw (e, append_assoc) refl
  | inr e ↦ rw e refl
]

-- The messages are what a log says that the outcomes explain.
abbrev pub IsLogged : Appended → List Outcome × Appended → Type 0
IsLogged s (os, s') = (log : Log) × Explains os log × ((j : ℕ) → s' j ≡ s j ++ texts_of log j)

module _ (packages : Packages) where
  serve_at-Spoke :
      (v : Environment) (ni : Option NetworkIdentifier) (endpoint : Endpoint packages.Float)
      (s : Appended)
      → Spoke s (serve_at packages v ni endpoint s)
  unfolding serve_at
  serve_at-Spoke v ni Endpoint.list s = settle-Spoke s _ ((network_list-TouchesOwn v.config).at s)
  serve_at-Spoke v ni (Endpoint.status flags) s =
      settle-Spoke s _ ((network_status-TouchesOwn v.theta v.config v.network_node ni flags).at s)
  serve_at-Spoke v ni Endpoint.options s =
      settle-Spoke s _
        ((network_options-TouchesOwn v.config v.rosetta_version v.node_version ni).at s)
  serve_at-Spoke v ni (Endpoint.balance account at currencies) s =
      settle-Spoke s _
        ((account_balance-TouchesOwn v.theta v.config v.account_node ni account at currencies).at s)
  serve_at-Spoke v ni (Endpoint.coins account currencies) s =
      settle-Spoke s _
        ((account_coins-TouchesOwn v.theta v.config v.account_node ni account currencies).at s)
  serve_at-Spoke v ni (Endpoint.derive key) s =
      settle-Spoke s _ ((construction_derive-TouchesOwn packages v.theta v.config ni key).at s)
  serve_at-Spoke v ni (Endpoint.preprocess operations given) s =
      settle-Spoke s _
        ((construction_preprocess-TouchesOwn packages v.config ni operations given).at s)
  serve_at-Spoke v ni (Endpoint.metadata given) s =
      settle-Spoke s _
        ((construction_metadata-TouchesOwn packages v.status v.config v.get_account ni given).at s)
  serve_at-Spoke v ni (Endpoint.payloads operations given) s =
      settle-Spoke s _
        ((construction_payloads-TouchesOwn packages v.config ni operations given).at s)
  serve_at-Spoke v ni (Endpoint.parse signed transaction) s =
      settle-Spoke s _
        ((construction_parse-TouchesOwn packages v.theta v.config ni signed transaction).at s)
  serve_at-Spoke v ni (Endpoint.combine unsigned signatures) s =
      settle-Spoke s _
        ((construction_combine-TouchesOwn packages v.config ni unsigned signatures).at s)
  serve_at-Spoke v ni (Endpoint.hash signed) s =
      settle-Spoke s _ ((construction_hash-TouchesOwn packages v.theta v.config ni signed).at s)
  serve_at-Spoke v ni (Endpoint.submit signed) s =
      settle-Spoke s _
        ((construction_submit-TouchesOwn v.config v.broadcast v.error_text ni signed).at s)

  after_first :
      (s : Appended) (first : Outcome × Appended) (rest : List Outcome × Appended)
      → Spoke s first
      → IsLogged (first.1) rest
      → IsLogged s (first.0 ∷ rest.0, rest.1)
  after_first s (o, s1) (os, s2) (inl same) (log, why, m) =
      (log, Explains.silent why, λ j. m j ∙ ap (λ u. u j ++ texts_of log j) same)
  after_first s (o, s1) (os, s2) (inr (e, text, same, step)) (log, why, m) = (
    (e.code, text) ∷ log,
    subst (λ u. Explains (u ∷ os) ((e.code, text) ∷ log)) (sym same) (Explains.spoken why),
    λ j. m j ∙ ap (λ u. u j ++ texts_of log j) step ∙ add_text-texts_of e.code text s log j,
  )

  -- After any requests to the network, account and construction endpoints, the text that each error
  -- shows is its text before followed by the texts of a log: in the order of the requests, each
  -- request that failed wrote at most one text, for the error that it returned, and no other
  -- request wrote any.
  pub run-IsLogged :
      (requests : List (Request packages.Float)) (s : Appended)
      → IsLogged s (run packages requests s)
  unfolding run
  run-IsLogged [] s = ([], Explains.nothing, λ j. sym (append-nil (s j)))
  run-IsLogged (r ∷ rs) s =
      after_first s (serve packages r s) (run packages rs (serve packages r s).1)
        (serve_at-Spoke r.environment r.network r.endpoint s)
        (run-IsLogged rs (serve packages r s).1)
