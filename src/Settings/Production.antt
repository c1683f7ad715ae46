-- ===== src/Settings/Production.antt =====
-- settings.py: what a production configuration has when the start gets it.
use mikrotik.Prelude.{
  String, ◌≡◌, refl, Bool, true, false, Option, none, some, List, [], ◌∷◌, All, ◌++◌, ◌≤◌, arith,
  Option-cases, inl, inr, ◌⊎◌, str_eq, mem_text, text_length, any, not, ◌||◌, if◌then◌else◌,
}
use mikrotik.Settings.{
  Settings, Os, is_production, validation_errors, validate, error_if, not_https, credential_errors,
  origin_errors, control_errors, provider_errors, mpesa_errors, for_provider, known_providers,
  concat, error_groups,
}
use mikrotik.Settings.Load.{loaded, get_settings, checked, read_settings}

-- What production must not run without.
pub record IsSafe (os : Os) (s : Settings) : Type 0 where
  pub long_key : 32 ≤ text_length s.secret_key
  pub own_key : str_eq s.secret_key "change-me-in-production" ≡ false
  pub credential_key : os.fernet_key s.router_credential_key ≡ true
  pub no_wildcard_origin : mem_text "*" s.cors_origins ≡ false
  pub https_origins : any (not_https os) s.cors_origins ≡ false
  pub no_wildcard_host : mem_text "*" s.allowed_hosts ≡ false
  pub https_api : not_https os s.api_public_url ≡ false
  pub long_agent_secret : 32 ≤ text_length s.vpn_agent_shared_secret
  pub known : any (λ p. not (mem_text p known_providers)) s.payment_providers ≡ false
  pub default_known : mem_text s.payment_provider s.payment_providers ≡ true
  pub verified : (not (mem_text "mpesa" s.payment_providers) || s.mpesa_verify_callback) ≡ true

append-empty : (xs ys : List String) → xs ++ ys ≡ [] → (xs ≡ []) × (ys ≡ [])
append-empty [] ys h = (refl, h)
append-empty (x ∷ xs) ys h = absurd (cc)

List-cases :
    (xs : List String) → (xs ≡ []) ⊎ ((x : String) × (rest : List String) × (xs ≡ x ∷ rest))
List-cases [] = inl refl
List-cases (x ∷ rest) = inr (x, rest, refl)

then-empty : (b : Bool) (xs : List String) → b ≡ true → (if b then xs else []) ≡ [] → xs ≡ []
then-empty b xs h e = rw h at e

concat-empty : (xss : List (List String)) → concat xss ≡ [] → All (λ xs. xs ≡ []) xss
concat-empty [] h = tt
concat-empty (xs ∷ xss) h =
    let (here, rest) = append-empty xs (concat xss) h in (here, concat-empty xss rest)

error_if-empty : (c : Bool) (m : String) → error_if c m ≡ [] → c ≡ false
error_if-empty false m h = refl
error_if-empty true m h = cc

validate-none : (os : Os) (s : Settings) → validate os s ≡ none → validation_errors os s ≡ []
unfolding validate
validate-none os s h = elim (List-cases (validation_errors os s)) [
  | inl clean ↦ clean
  | inr (e, rest, found) ↦ absurd (ground arith)
]

-- The five groups of errors that are always looked at, and the one of M-Pesa.
pub record IsClean (os : Os) (s : Settings) : Type 0 where
  pub credentials : credential_errors os s ≡ []
  pub origins : origin_errors os s ≡ []
  pub control : control_errors s ≡ []
  pub providers : provider_errors s ≡ []
  pub mpesa : for_provider "mpesa" s (mpesa_errors os s) ≡ []

validation_errors-IsClean :
    (os : Os) (s : Settings) → is_production s ≡ true → validation_errors os s ≡ [] → IsClean os s
unfolding validation_errors error_groups
validation_errors-IsClean os s production h =
    let empty : All (λ xs. xs ≡ []) (error_groups os s) =
      concat-empty (error_groups os s)
        (then-empty (is_production s) (concat (error_groups os s)) production h) in
    record {
      credentials = empty.0;
      origins = empty.1.0;
      control = empty.1.1.0;
      providers = empty.1.1.1.0;
      mpesa = empty.1.1.1.1.0;
    }

-- A configuration that `get_settings` returns for production is safe: its keys are long and its own, its
-- credential key is a Fernet key, its origins and hosts are explicit and its origins and its own
-- address are served by HTTPS, its payment providers are known ones with the default among them, and
-- M-Pesa callbacks are verified if M-Pesa is one of them.
pub get_settings-IsSafe :
    (os : Os) (s : Settings) → get_settings os ≡ loaded s → is_production s ≡ true → IsSafe os s
unfolding get_settings credential_errors origin_errors control_errors provider_errors mpesa_errors
get_settings-IsSafe os s h production =
    let clean =
      validation_errors-IsClean os s production
        (validate-none os s (returned (read_settings os) h)) in
    record {
      long_key = ground (arith, clean.credentials);
      own_key = ground (arith, clean.credentials);
      credential_key = ground (arith, clean.credentials);
      no_wildcard_origin = ground (arith, clean.origins);
      https_origins = ground (arith, clean.origins);
      no_wildcard_host = ground (arith, clean.origins);
      https_api = ground (arith, clean.origins);
      long_agent_secret = ground (arith, clean.control);
      known = ground (arith, clean.providers);
      default_known = ground (arith, clean.providers);
      verified = ground (arith, clean.mpesa);
    }
  where
    returned : (found : Option Settings) → checked os found ≡ loaded s → validate os s ≡ none
    returned none h = cc
    returned (some s') h = elim (Option-cases (validate os s')) [
      | inl clean ↦ ground arith
      | inr (message, e) ↦ absurd (ground arith)
    ]
