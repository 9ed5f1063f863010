-- ===== src/Recovery/Invocation/Bound.antt =====
-- scripts/release-recovery.mjs: an accepted invocation is the one of the run that is asked for.
use symbol_nem_wallet_core.Prelude.{
  ℕ, String, true, not, Option, none, some, List, [], ◌∷◌, ◌≡◌, refl, codes, all, same_codes,
  same_codes-eq, arith, ap, Bool-cases, inl, inr, not-false, and-true, All, map, subst,
}
use symbol_nem_wallet_core.Js.Json.{
  Json, undefined, null, boolean, number, string, array, object, opaque, get, is_string,
  is_string-eq, throw_if-returned, text,
}
use symbol_nem_wallet_core.Js.Outcome.{returned}
use symbol_nem_wallet_core.Manifest.Versions.{number_value}
use symbol_nem_wallet_core.Recovery.Paths.{gate}
use symbol_nem_wallet_core.Recovery.Invocation.{
  items_of, only_id, match_invocation, Invocation, not_bound, bound_to, one_invocation,
  invocation_of, validate_provenance_invocation,
}

all-true :
    (id : String) (vs : List Json)
    → all (λ v. is_string v id) vs ≡ true
    → All (λ v. v ≡ string id) vs
all-true id [] k = tt
all-true id (v ∷ vs) k =
    let (here, later) = and-true (is_string v id) (all (λ v. is_string v id) vs) k in
    (is_string-eq v id here, all-true id vs later)

only_id-All : (vs : List Json) (id : String) → only_id vs ≡ some id → All (λ v. v ≡ string id) vs
only_id-All [] id k = tt
only_id-All (string s ∷ vs) id k = elim (Bool-cases (all (λ v. is_string v s) vs)) [
  | inl e ↦
      let q : some s ≡ some id = rw e at k in
      let t : s ≡ id = ground arith in
      subst (λ w. All (λ v. v ≡ string w) (string s ∷ vs)) t (refl, all-true s vs e)
  | inr e ↦ cc (rw e at k)
]
only_id-All (undefined ∷ vs) id k = cc
only_id-All (null ∷ vs) id k = cc
only_id-All (boolean b ∷ vs) id k = cc
only_id-All (number t ∷ vs) id k = cc
only_id-All (array xs ∷ vs) id k = cc
only_id-All (object fs ∷ vs) id k = cc
only_id-All (opaque t ∷ vs) id k = cc

-- Every identity of the evidence has one invocation id, which names the run.
pub record IsBound (evidence run_id : Json) (r : Invocation) : Type 0 where
  pub identities : List Json
  pub listed : items_of (get (get evidence "provenance") "identities") ≡ some identities
  pub same : All (λ v. v ≡ string r.invocation_id) (map (λ i. get i "invocation_id") identities)
  pub attempt : List ℕ
  pub matched : match_invocation (codes r.invocation_id) ≡ some (text run_id, attempt)
  pub run : r.run_id ≡ text run_id
  pub counted : r.run_attempt ≡ number_value attempt

bound_to-eq :
    (run_id : List ℕ) (id : String) (m : Option (List ℕ × List ℕ)) (r : Invocation)
    → bound_to run_id id m ≡ returned r
    → (attempt : List ℕ) × (m ≡ some (run_id, attempt))
      × (record { run_id = run_id; run_attempt = number_value attempt; invocation_id = id } ≡ r)
bound_to-eq run_id id none r k = cc
bound_to-eq run_id id (some (run, attempt)) r k =
    let (same, q) = throw_if-returned (not (same_codes run run_id)) (gate not_bound) _ r k in
    let e : run ≡ run_id = same_codes-eq run run_id (not-false _ same) in
    let p : record { run_id = run; run_attempt = number_value attempt; invocation_id = id } ≡ r =
      ground arith in
    (
      attempt,
      ap (λ c. some (c, attempt)) e,
      subst (λ c. record { run_id = c; run_attempt = number_value attempt; invocation_id = id } ≡ r)
          e p,
    )

one_invocation-IsBound :
    (evidence run_id : Json) (identities : List Json) (o : Option String) (r : Invocation)
    → items_of (get (get evidence "provenance") "identities") ≡ some identities
    → only_id (map (λ i. get i "invocation_id") identities) ≡ o
    → one_invocation (text run_id) o ≡ returned r
    → IsBound evidence run_id r
one_invocation-IsBound evidence run_id identities none r l e k = cc
one_invocation-IsBound evidence run_id identities (some id) r l e k =
    let (attempt, m, q) = bound_to-eq (text run_id) id (match_invocation (codes id)) r k in
    subst (IsBound evidence run_id) q (record {
      identities = identities;
      listed = l;
      same = only_id-All (map (λ i. get i "invocation_id") identities) id e;
      attempt = attempt;
      matched = m;
      run = refl;
      counted = refl;
    })

invocation_of-IsBound :
    (evidence run_id : Json) (o : Option (List Json)) (r : Invocation)
    → items_of (get (get evidence "provenance") "identities") ≡ o
    → invocation_of (text run_id) o ≡ returned r
    → IsBound evidence run_id r
invocation_of-IsBound evidence run_id none r l k = cc
invocation_of-IsBound evidence run_id (some identities) r l k =
    one_invocation-IsBound evidence run_id identities _ r l refl k

-- When the invocation of a provenance is accepted, all identities of the evidence have the same
-- invocation id, which matches the pattern with the run that is asked for, and the result has that
-- run, the attempt of the id and the id.
pub validate_provenance_invocation-IsBound :
    (evidence repository run_id : Json) (r : Invocation)
    → validate_provenance_invocation evidence repository run_id ≡ returned r
    → IsBound evidence run_id r
unfolding validate_provenance_invocation
validate_provenance_invocation-IsBound evidence repository run_id r k =
    let (good, rest) =
      throw_if-returned _ _
        (invocation_of (text run_id) (items_of (get (get evidence "provenance") "identities"))) r
        k in
    invocation_of-IsBound evidence run_id _ r refl rest
