-- ===== src/Push/Examples.antt =====
-- internal/push/resolver.go: a token that one endpoint uses.
use go_uptime.Push.Resolver.Known.{only}
use go_uptime.Push.Resolver.Users.{users_of}
use go_uptime.Push.Resolver.Tokens.{identified, resolve-new_resolver}
use go_uptime.Push.Resolver.Targets.{listed_keys}
use go_uptime.Push.Resolver.{Candidate, Administration, new_resolver, resolve}
use go_uptime.Push.{
  Library, Config, tokens, validate_and_set_defaults, validate_keys, validate_endpoints,
}
use go_uptime.Push.Validation.{Fresh, validate-Fresh}
use go_uptime.Common.{◌≡◌, refl, none, [], ◌∷◌, Bytes, length, Option, replicate, bytes_beq}

abbrev library : Library
library = record {
  trim_space = λ text. text;
  to_lower = λ text. text;
  rune_count = λ text. length text;
  sum256 = λ text. text;
}

abbrev administration : Administration
administration = record {
  target_by_token = λ token. none;
  target_by_key = λ key. none;
  token_of = λ key. [];
  lookup_key = λ token. none;
}

abbrev candidate : Candidate
candidate = record { key = 97 ∷ []; enabled = none; token = 120 ∷ 121 ∷ [] }

abbrev no_endpoint : Bytes → Option Candidate
no_endpoint key = none

resolve-new_resolver_example :
    let r = new_resolver no_endpoint (candidate ∷ []) [] [] in
    resolve library administration (120 ∷ 121 ∷ []) [] r
    ≡ identified administration
        (120 ∷ 121 ∷ [])
        (listed_keys no_endpoint [])
        (only (users_of (120 ∷ 121 ∷ []) no_endpoint (candidate ∷ []) []))
resolve-new_resolver_example =
    resolve-new_resolver library administration no_endpoint (candidate ∷ []) [] [] (120 ∷ 121 ∷ [])
      refl

abbrev config : Config
config = record {
  keys = record { name = 97 ∷ []; token = replicate 16 120; hash = [] } ∷ [];
  endpoints = record { key = 98 ∷ []; token = replicate 8 121 } ∷ [];
}

abbrev accepted : Config
accepted = record {
  keys = record { name = 97 ∷ []; token = replicate 16 120; hash = replicate 16 120 } ∷ [];
  endpoints = record { key = 98 ∷ []; token = replicate 8 121 } ∷ [];
}

validate-Fresh_example : Fresh [] (tokens accepted)
validate-Fresh_example =
    validate-Fresh library config {accepted = accepted}
      (unfold validate_and_set_defaults validate_keys validate_endpoints bytes_beq in refl)
