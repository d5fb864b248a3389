-- ===== src/Session/Options.antt =====
-- What `NetworkOptions` of services/network.go says of the errors, after any requests.
use theta_rosetta_rpc_adapto.Prelude.{
  ℕ, ◌≡◌, refl, ◌∙◌, ap, String, Bool, true, false, Option, none, List, [], ◌∷◌, map,
}
use theta_rosetta_rpc_adapto.Go.{ok}
use theta_rosetta_rpc_adapto.Errors.{ApiError, error_list}
use theta_rosetta_rpc_adapto.Block.Endpoints.{
  Config, validate_network_identifier, NetworkIdentifier, response,
}
use theta_rosetta_rpc_adapto.Handler.{Appended, nothing_appended}
use theta_rosetta_rpc_adapto.Construction.{Packages}
use theta_rosetta_rpc_adapto.Names.{tx_op_types, block_status_string}
use theta_rosetta_rpc_adapto.Network.{
  join_all, shown_error, NetworkOptions, options_response, network_options,
}
use theta_rosetta_rpc_adapto.Session.{Request, run}
use theta_rosetta_rpc_adapto.Session.Log.{Log, texts_of, Explains, run-IsLogged}

-- An error that is written out with the texts of a log.
abbrev pub logged_error : Log → ApiError → ApiError
logged_error log e = record {
  code = e.code;
  message = join_all e.message (texts_of log e.code);
  retriable = e.retriable;
}

shown_error-logged :
    (s : Appended) (log : Log)
    → ((j : ℕ) → s j ≡ texts_of log j)
    → (es : List ApiError) → map (shown_error s) es ≡ map (logged_error log) es
unfolding shown_error
shown_error-logged s log m [] = refl
shown_error-logged s log m (e ∷ es) = rw (m e.code, shown_error-logged s log m es) refl

abbrev pub named_declared : List (String × Bool)
named_declared =
    ("pending", false)
    ∷ ("valid", true)
    ∷ ("invalid", false)
    ∷ ("committed", true)
    ∷ ("directly_finalized", true)
    ∷ ("indirectly_finalized", true)
    ∷ ("trusted", true)
    ∷ ("disposed", true)
    ∷ []

network_options-valid :
    (config : Config) (rosetta node : String) (ni : Option NetworkIdentifier) (s : Appended)
    → validate_network_identifier config ni ≡ none
    → network_options config rosetta node ni s ≡ options_response rosetta node named_declared s
unfolding network_options block_status_string
network_options-valid config rosetta node ni s h = rw h refl

abbrev pub options_with : String → String → List ApiError → NetworkOptions
options_with rosetta node errors = record {
  rosetta_version = rosetta;
  node_version = node;
  operation_statuses = named_declared;
  operation_types = tx_op_types;
  errors = errors;
  historical_balance_lookup = true;
  mempool_coins = true;
}

-- After any requests, `NetworkOptions` with a valid network identifier lists the declared statuses
-- and operation types, and each declared error with its declared message followed by the texts of a
-- log that the requests' outcomes explain.
pub network_options-run :
    (packages : Packages) (requests : List (Request packages.Float)) (config : Config)
    (rosetta node : String) (ni : Option NetworkIdentifier)
    → validate_network_identifier config ni ≡ none
    → (log : Log) × Explains (run packages requests nothing_appended).0 log
      × (network_options config rosetta node ni (run packages requests nothing_appended).1
          ≡ ok (
            response (options_with rosetta node (map (logged_error log) error_list)),
            (run packages requests nothing_appended).1,
          ))
network_options-run packages requests config rosetta node ni valid =
    let (log, why, m) = run-IsLogged packages requests nothing_appended in
    (
      log,
      why,
      network_options-valid config rosetta node ni _ valid
          ∙ ap
              (λ errors. ok (
                response (options_with rosetta node errors),
                (run packages requests nothing_appended).1,
              ))
              (shown_error-logged _ log m error_list),
    )
