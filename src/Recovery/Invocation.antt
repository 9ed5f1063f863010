-- ===== src/Recovery/Invocation.antt =====
-- scripts/release-recovery.mjs: validateDispatchBoundary and validateProvenanceInvocation.
pub mod Bound
use symbol_nem_wallet_core.Prelude.{
  ℕ, String, Bool, true, false, not, ◌||◌, ◌&&◌, Option, none, some, List, [], ◌∷◌, ◌++◌, codes,
  ◌==◌, all, leb, same_codes, if◌then◌else◌, map,
}
use symbol_nem_wallet_core.Js.Json.{
  Json, string, array, items, get, is_plain_object, is_string, is_same, text, throw_if, error,
}
use symbol_nem_wallet_core.Js.Outcome.{Outcome, returned, thrown, ◌>>=◌}
use symbol_nem_wallet_core.Manifest.Versions.{
  is_digit, is_empty, is_digest, span_digits, number_value,
}
use symbol_nem_wallet_core.Recovery.Paths.{gate}

-- REPOSITORY
abbrev pub repository_name : String
repository_name = "nemnesia/symbol-nem-wallet-core"

-- The result has the arguments as they are, so it is not written out.
unfoldable pub validate_dispatch_boundary : Json → Json → Json → Outcome (Unit {0})
validate_dispatch_boundary ref sha main_ref =
    throw_if (not (is_string ref "refs/heads/main"))
      (gate "recovery tooling must execute from refs/heads/main")
      (throw_if
        (not (is_digest 40 (text sha))
          || not (is_digest 40 (text main_ref))
          || not (is_same sha main_ref))
        (gate "recovery tooling SHA is not the current origin/main commit") (returned tt))

abbrev pub is_number_text : List ℕ → Bool
is_number_text cs = not (is_empty cs) && all is_digit cs

abbrev pub items_of : Json → Option (List Json)
items_of (array vs) = some (items vs)
items_of _ = none

-- The one element of the set of invocation ids, where it is a string.
abbrev pub only_id : List Json → Option String
only_id [] = none
only_id (string id ∷ ids) = if all (λ v. is_string v id) ids then some id else none
only_id (v ∷ ids) = none

-- `.` in a pattern
abbrev pub any_character : ℕ → Bool
any_character c = not (c == 10 || c == 13 || c == 8232 || c == 8233)

-- what follows a literal text, if the text starts with it
abbrev pub after : List ℕ → List ℕ → Option (List ℕ)
after [] cs = some cs
after (p ∷ ps) [] = none
after (p ∷ ps) (c ∷ cs) = let rest = after ps cs in if p == c then rest else none

abbrev pub after_dot : Option (List ℕ) → Option (List ℕ)
after_dot none = none
after_dot (some []) = none
after_dot (some (c ∷ cs)) =
    if any_character c
    then after (codes "com/nemnesia/symbol-nem-wallet-core/actions/runs/") cs
    else none

-- [1-9][0-9]*$
abbrev pub is_attempt : List ℕ → Bool
is_attempt [] = false
is_attempt (c ∷ cs) = leb 49 c && leb c 57 && all is_digit cs

abbrev pub attempt_of : List ℕ → Option (List ℕ) → Option (List ℕ × List ℕ)
attempt_of run none = none
attempt_of run (some attempt) =
    if not (is_empty run) && is_attempt attempt then some (run, attempt) else none

abbrev pub run_of : List ℕ × List ℕ → Option (List ℕ × List ℕ)
run_of (run, rest) = attempt_of run (after (codes "/attempts/") rest)

abbrev pub match_rest : Option (List ℕ) → Option (List ℕ × List ℕ)
match_rest none = none
match_rest (some cs) = run_of (span_digits cs)

-- The pattern of an invocation id, to the run and the attempt. Its `.` in "github.com" stands for
-- any character.
unfoldable pub match_invocation : List ℕ → Option (List ℕ × List ℕ)
match_invocation cs = match_rest (after_dot (after (codes "https://github") cs))

pub record Invocation : Type 0 where
  pub run_id : List ℕ
  pub run_attempt : ℕ
  pub invocation_id : String

abbrev pub not_bound : String
not_bound = "recovery provenance invocation is not bound to the original publish run attempt"

abbrev pub bound_to : List ℕ → String → Option (List ℕ × List ℕ) → Outcome Invocation
bound_to run_id id none = thrown (error (gate not_bound))
bound_to run_id id (some (run, attempt)) =
    throw_if (not (same_codes run run_id)) (gate not_bound)
      (returned (record { run_id = run; run_attempt = number_value attempt; invocation_id = id }))

abbrev pub one_invocation : List ℕ → Option String → Outcome Invocation
one_invocation run_id none =
    thrown (error (gate "recovery provenance must have exactly one invocation identity"))
one_invocation run_id (some id) = bound_to run_id id (match_invocation (codes id))

abbrev pub malformed : String
malformed = "recovery provenance invocation evidence is malformed"

abbrev pub invocation_of : List ℕ → Option (List Json) → Outcome Invocation
invocation_of run_id none = thrown (error (gate malformed))
invocation_of run_id (some identities) =
    one_invocation run_id (only_id (map (λ identity. get identity "invocation_id") identities))

unfoldable pub validate_provenance_invocation : Json → Json → Json → Outcome Invocation
validate_provenance_invocation evidence repository run_id =
    throw_if
      (not (is_string repository repository_name)
        || not (is_number_text (text run_id))
        || not (is_plain_object evidence)
        || not (is_plain_object (get evidence "provenance")))
      (gate malformed)
      (invocation_of (text run_id) (items_of (get (get evidence "provenance") "identities")))
