-- ===== src/Construction/Options.antt =====
-- What `ConstructionPreprocess` and `ConstructionMetadata` of services/construction.go answer with.
use theta_rosetta_rpc_adapto.Prelude.{
  ℕ, ◌+◌, ◌%◌, ◌≡◌, refl, String, Bool, true, false, not, Option, none, some, List, [], ◌∷◌, ◌++◌,
  ◌=ˢ◌, ◌==◌, Bool-cases, inl, inr, ◌∙◌, ap,
}
use theta_rosetta_rpc_adapto.Prelude.Int.{ℤ}
use theta_rosetta_rpc_adapto.Go.{Go, ok}
use theta_rosetta_rpc_adapto.Names.{TxType, tx_code}
use theta_rosetta_rpc_adapto.Wire.{Operation}
use theta_rosetta_rpc_adapto.Errors.{err_service_internal}
use theta_rosetta_rpc_adapto.Rpc.{Reply, Status, handle_theta_rpc_response}
use theta_rosetta_rpc_adapto.StakeService.{u64_mod}
use theta_rosetta_rpc_adapto.Block.Endpoints.{
  Config, NetworkIdentifier, Response, response, refused, validate_network_identifier, guard_online,
}
use theta_rosetta_rpc_adapto.Handler.{Appended, add_text, fine, run_go, or_refuse, pass}
use theta_rosetta_rpc_adapto.Handler.Ensures.{
  Ensures, >>=-Ensures, give-Ensures, any-Ensures, if-Ensures, or_refuse-Ensures, run_go-Ensures,
  weaken,
}
use theta_rosetta_rpc_adapto.Construction.{
  Dynamic, Packages, find_key, get_operation_descriptions, send_descriptions,
}
use theta_rosetta_rpc_adapto.Construction.Preprocess.{
  Choice, Choices, pass_on, send_choices, choices_by_count, construction_preprocess,
}
use theta_rosetta_rpc_adapto.Construction.Payloads.SendTrip.{found}
use theta_rosetta_rpc_adapto.Construction.Suggest.{
  AccountAnswer, Entry, Suggestion, sequence_of, or_unavailable, as_text, as_float, suggest_by_type,
  suggest_send, suggest_contract, suggest_fee, suggest_gas_limit, suggest_gas_price,
  construction_metadata,
}

-- What is required, and the text of the refusal.
abbrev pub first_failing : List (Bool × String) → Option String
first_failing [] = none
first_failing ((true, text) ∷ checks) = first_failing checks
first_failing ((false, text) ∷ checks) = some text

-- A send's first two operations and its fee are of one account, its other two of one other account.
abbrev pub account_checks :
    Operation → Operation → Operation → Operation → Operation → List (Bool × String)
account_checks p0 p1 p2 p3 p4 =
    (p0.account =ˢ p1.account, "from address not matching")
    ∷ (p1.account =ˢ p4.account, "from address not matching")
    ∷ (p2.account =ˢ p3.account, "to address not matching")
    ∷ (not (p1.account =ˢ p3.account), "from and to accounts are the same")
    ∷ []

-- A value, or an internal error with a text.
abbrev pub unless_refused : {A : Type 0} → Option String → A → Appended → Go (Response A × Appended)
unless_refused none a s = ok (response a, s)
unless_refused (some text) a s =
    ok (refused err_service_internal, add_text err_service_internal.code text s)

module _ (packages : Packages) where
  abbrev pub given_fields : List (String × Dynamic packages.Float) → Choices packages.Float
  given_fields metadata =
      pass_on "gas_limit" (find_key "gas_limit" metadata)
      ++ (pass_on "gas_price" (find_key "gas_price" metadata)
          ++ pass_on "data" (find_key "data" metadata))

  abbrev pub send_options :
      Operation → ℤ → List (String × Dynamic packages.Float) → Choices packages.Float
  send_options from fee metadata =
      ("type", Choice.tx_type TxType.send_tx)
      ∷ ("fee", Choice.amount (some fee))
      ∷ ("signer", Choice.account from.account)
      ∷ given_fields metadata

  -- With a valid network identifier and five operations that the matcher matches,
  -- `ConstructionPreprocess` refuses by the first of its account checks that fails, with that
  -- check's text, and otherwise answers with the type of a send, the last match's amount as the
  -- fee, the first match's account as the signer, and the gas limit, gas price and data of the
  -- metadata where they are given.
  pub construction_preprocess-unless_refused :
      (config : Config) (ni : Option NetworkIdentifier) (o0 o1 o2 o3 o4 : Operation)
      (metadata : List (String × Dynamic packages.Float)) (p0 p1 p2 p3 p4 : Operation)
      (a0 a1 a2 a3 a4 : ℤ) (s : Appended)
      → validate_network_identifier config ni ≡ none
      → packages.match_operations send_descriptions (o0 ∷ o1 ∷ o2 ∷ o3 ∷ o4 ∷ [])
        ≡ fine (found p0 a0 ∷ found p1 a1 ∷ found p2 a2 ∷ found p3 a3 ∷ found p4 a4 ∷ [])
      → construction_preprocess packages config ni (o0 ∷ o1 ∷ o2 ∷ o3 ∷ o4 ∷ []) metadata s
        ≡ unless_refused
            (first_failing (account_checks p0 p1 p2 p3 p4))
            (send_options p0 a4 metadata)
            s
  unfolding construction_preprocess get_operation_descriptions choices_by_count send_choices
  construction_preprocess-unless_refused config ni o0 o1 o2 o3 o4 metadata p0 p1 p2 p3 p4 a0 a1 a2
        a3 a4 s v m =
      elim (Bool-cases (p0.account =ˢ p1.account)) [
        | inr e ↦ rw (v, m, e)
        | inl e ↦ elim (Bool-cases (p1.account =ˢ p4.account)) [
          | inr f ↦ rw (v, m, e, f)
          | inl f ↦ elim (Bool-cases (p2.account =ˢ p3.account)) [
            | inr g ↦ rw (v, m, e, f, g)
            | inl g ↦ elim (Bool-cases (p1.account =ˢ p3.account)) [
              | inr h ↦ rw (v, m, e, f, g, h)
              | inl h ↦ rw (v, m, e, f, g, h)
            ]
          ]
        ]
      ]

  -- What the first entry says, with any others behind it.
  StartsWith : ℕ → Suggestion packages.Float → Type 0
  StartsWith n r = find_key "sequence" r.metadata ≡ some (Entry.number ((n + 1) % u64_mod))

  suggest_send-StartsWith :
      (status : Reply Status) (n : ℕ) (options : List (String × Dynamic packages.Float))
      → Ensures (suggest_send packages status n options) (StartsWith n)
  unfolding suggest_send find_key StartsWith
  suggest_send-StartsWith status n options =
      >>=-Ensures {m = suggest_fee packages status (find_key "fee" options)} any-Ensures
        (λ fee u. give-Ensures refl)

  suggest_contract-StartsWith :
      (status : Reply Status) (n : ℕ) (options : List (String × Dynamic packages.Float))
      → Ensures (suggest_contract packages status n options) (StartsWith n)
  unfolding suggest_contract find_key StartsWith
  suggest_contract-StartsWith status n options =
      >>=-Ensures {m = suggest_gas_limit packages status (find_key "gas_limit" options)} any-Ensures
        (λ limit u.
          >>=-Ensures {m = suggest_gas_price packages status limit.1 (find_key "gas_price" options)}
            any-Ensures (λ price w. give-Ensures refl))

  suggest_by_type-StartsWith :
      (status : Reply Status) (code n : ℕ) (options : List (String × Dynamic packages.Float))
      → Ensures (suggest_by_type packages status code n options) (StartsWith n)
  unfolding suggest_by_type find_key StartsWith
  suggest_by_type-StartsWith status code n options =
      if-Ensures (code == tx_code TxType.send_tx) (suggest_send-StartsWith status n options) (
        if-Ensures (code == tx_code TxType.smart_contract_tx)
          (suggest_contract-StartsWith status n options) (give-Ensures refl))

  -- The node's answer about the signer of the options, and its sequence.
  abbrev pub SignerHas :
      (String → Reply AccountAnswer) → List (String × Dynamic packages.Float) → ℕ → Type 0
  SignerHas get_account options n =
      (address : String) × (find_key "signer" options ≡ some (Dynamic.text address))
      × (handle_theta_rpc_response (get_account address) sequence_of ≡ ok (some n))

  as_text-Ensures : (v : Dynamic packages.Float) → Ensures (as_text v) (λ t. v ≡ Dynamic.text t)
  as_text-Ensures (Dynamic.text t) = give-Ensures refl
  as_text-Ensures (Dynamic.float f) = record { at = λ s a s' h. absurd (cc h) }
  as_text-Ensures (Dynamic.another n) = record { at = λ s a s' h. absurd (cc h) }

  or_unavailable-Ensures : (o : Option ℕ) → Ensures (or_unavailable o) (λ n. o ≡ some n)
  or_unavailable-Ensures none = record { at = λ s a s' h. absurd (cc h) }
  or_unavailable-Ensures (some n) = give-Ensures refl

  metadata-Ensures :
      (status : Reply Status) (config : Config) (get_account : String → Reply AccountAnswer)
      (ni : Option NetworkIdentifier) (options : List (String × Dynamic packages.Float))
      → Ensures
          (construction_metadata packages status config get_account ni options)
          (λ r. (n : ℕ) × SignerHas get_account options n × StartsWith n r)
  unfolding construction_metadata
  metadata-Ensures status config get_account ni options =
      >>=-Ensures {m = pass (guard_online config ni)} any-Ensures (λ u w.
        >>=-Ensures {m = or_refuse (find_key "signer" options) _ _} (or_refuse-Ensures _ _)
          (λ signer e. >>=-Ensures {m = as_text signer} (as_text-Ensures signer) (λ address f.
            >>=-Ensures {m = run_go (handle_theta_rpc_response (get_account address) sequence_of)}
              run_go-Ensures
              (λ found g.
                >>=-Ensures {m = or_unavailable found} (or_unavailable-Ensures found) (λ n h.
                  >>=-Ensures {m = or_refuse (find_key "type" options) _ _} any-Ensures (λ type w2.
                    >>=-Ensures {m = as_float type} any-Ensures (λ x w3.
                      weaken (suggest_by_type-StartsWith status (packages.float_byte x) n options)
                        (λ r k. (n, (address, e ∙ ap some f, g ∙ ap ok h), k)))))))))

  -- Whatever type of transaction the options name, a response of `ConstructionMetadata` holds under
  -- `sequence` the sequence that the node answered for the signer of the options, plus one in 64
  -- bits.
  pub construction_metadata-SignerHas :
      (status : Reply Status) (config : Config) (get_account : String → Reply AccountAnswer)
      (ni : Option NetworkIdentifier) (options : List (String × Dynamic packages.Float))
      (r : Suggestion packages.Float) (s s' : Appended)
      → construction_metadata packages status config get_account ni options s ≡ ok (response r, s')
      → (n : ℕ) × SignerHas get_account options n
        × (find_key "sequence" r.metadata ≡ some (Entry.number ((n + 1) % u64_mod)))
  unfolding StartsWith
  construction_metadata-SignerHas status config get_account ni options r s s' h =
      (metadata-Ensures status config get_account ni options).at s r s' h
