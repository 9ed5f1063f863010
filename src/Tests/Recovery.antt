-- ===== src/Tests/Recovery.antt =====
-- Runs of scripts/release-recovery.mjs.
use symbol_nem_wallet_core.Prelude.{ℕ, ◌≡◌, refl, List, [], ◌∷◌, codes, some, String}
use symbol_nem_wallet_core.Js.Json.{
  Json, string, object, field, end, array, cons, nil, get, text, error,
}
use symbol_nem_wallet_core.Manifest.Versions.{span_digits}
use symbol_nem_wallet_core.Recovery.Invocation.{
  repository_name, match_invocation, validate_provenance_invocation,
}
use symbol_nem_wallet_core.Recovery.Invocation.Bound.{
  IsBound, validate_provenance_invocation-IsBound,
}
use symbol_nem_wallet_core.Js.Outcome.{thrown}
use symbol_nem_wallet_core.Release.SemVer.{split}
use symbol_nem_wallet_core.Recovery.Paths.{gate, is_unsafe_path, safe_relative_path}
use symbol_nem_wallet_core.Recovery.Paths.Safe.{resolve, below, safe_relative_path-below}

abbrev root : List (List ℕ)
root = codes "evidence" ∷ []

safe_relative_path-below_example :
    resolve root (split b'/' (codes "package/dist/core.node"))
    ≡ below root (split b'/' (codes "package/dist/core.node"))
unfolding safe_relative_path is_unsafe_path split
safe_relative_path-below_example =
    safe_relative_path-below "package/dist/core.node" "path" root refl

up_run :
    safe_relative_path (string "package/../../core.node") "path"
    ≡ thrown (error (gate "path is not a safe relative path"))
unfolding safe_relative_path is_unsafe_path split
up_run = refl

abbrev run_url : String
run_url = "https://github.com/nemnesia/symbol-nem-wallet-core/actions/runs/17/attempts/2"

abbrev evidence : Json
evidence = object (
    field "provenance"
      (object (
        field "identities"
          (array (
            cons (object (field "invocation_id" (string run_url) end))
              (cons (object (field "invocation_id" (string run_url) end)) nil)))
          end))
      end)

validate_provenance_invocation-IsBound_example :
    IsBound evidence
      (string "17")
      (record { run_id = codes "17"; run_attempt = 2; invocation_id = run_url })
unfolding validate_provenance_invocation match_invocation span_digits text get
validate_provenance_invocation-IsBound_example =
    validate_provenance_invocation-IsBound evidence (string repository_name) (string "17")
      (record { run_id = codes "17"; run_attempt = 2; invocation_id = run_url }) refl

-- The `.` of the pattern is not escaped, so another host matches.
other_host_run :
    match_invocation
      (codes "https://github-com/nemnesia/symbol-nem-wallet-core/actions/runs/17/attempts/2")
    ≡ some (codes "17", codes "2")
unfolding match_invocation span_digits
other_host_run = refl
