-- ===== src/Provenance/Statements/Told.antt =====
-- scripts/npm-provenance.mjs: what a statement tells that an identity is read from.
use symbol_nem_wallet_core.Prelude.{
  ℕ, zero, suc, String, Bool, true, false, not, ◌&&◌, Option, none, some, List, [], ◌∷◌, ◌++◌, ◌≡◌,
  refl, subst, ◌⊎◌, inl, inr, arith, codes, any, In, starts_with, same_codes, same_codes-eq, ◌==◌,
  Bool-cases, or-false, and-true, not-false,
}
use symbol_nem_wallet_core.Js.Json.{
  Json, undefined, null, boolean, number, string, array, object, opaque, is_plain_object, get,
  is_string, is_string-eq, is_same, throw_if-returned,
}
use symbol_nem_wallet_core.Js.Outcome.{returned, bind-returned}
use symbol_nem_wallet_core.Release.Identity.{is_text}
use symbol_nem_wallet_core.Release.Identity.Accepted.{is_text-codes}
use symbol_nem_wallet_core.Operation.Spdx.{element_list, is_array}
use symbol_nem_wallet_core.Provenance.Statements.{
  Expected, is_provenance_type, purl, is_subject, github, tag_ref, workflow_path, workflow_differs,
  is_source, runs_prefix, run_prefix, attempt_id, run_agrees, check_run, check_invocation,
  ProvenanceIdentity, workflow_of, dependencies_of, invocation_of, statement_identity,
}

any-In : (p : Json → Bool) (vs : List Json) → any p vs ≡ true → (v : Json) × In v vs × (p v ≡ true)
any-In p [] k = cc
any-In p (v ∷ vs) k = elim (Bool-cases (p v)) [
  | inl e ↦ (v, inl refl, e)
  | inr e ↦ let (w, listed, f) = any-In p vs (rw e at k) in (w, inr listed, f)
]

starts_with-append : (p cs : List ℕ) → starts_with p cs ≡ true → (rest : List ℕ) × (cs ≡ p ++ rest)
starts_with-append [] cs k = (cs, refl)
starts_with-append (p ∷ ps) [] k = cc
starts_with-append (p ∷ ps) (c ∷ cs) k =
    let (same, more) = and-true (p == c) (starts_with ps cs) k in
    let (rest, e) = starts_with-append ps cs more in let q : p ≡ c = ground arith in (rest, cc)

-- A text that a field holds.
pub record Holds (v : Json) (cs : List ℕ) : Type 0 where
  pub held : String
  pub held_text : v ≡ string held
  pub held_codes : codes held ≡ cs

is_text-Holds : (v : Json) (cs : List ℕ) → is_text v cs ≡ true → Holds v cs
is_text-Holds v cs k =
    let (s, e, c) = is_text-codes v cs k in record { held = s; held_text = e; held_codes = c }

-- The subject names the package and has the digest of its tarball.
pub record IsSubject (expected : Expected) (subject : Json) : Type 0 where
  pub name : Holds (get subject "name") (purl expected)
  pub digest : get (get subject "digest") "sha512" ≡ string expected.tarball_sha512

is_subject-IsSubject :
    (expected : Expected) (subject : Json)
    → is_subject expected subject ≡ true
    → IsSubject expected subject
is_subject-IsSubject expected subject k =
    let (front, digest) =
      and-true _ (is_string (get (get subject "digest") "sha512") expected.tarball_sha512) k in
    let (plain, name) = and-true (is_plain_object subject) _ front in
    record { name = is_text-Holds _ _ name; digest = is_string-eq _ _ digest }

-- The workflow is the release workflow of the repository, at the tag.
pub record IsWorkflow (expected : Expected) (workflow : Json) : Type 0 where
  pub repository : Holds (get workflow "repository") (github expected)
  pub path : get workflow "path" ≡ string workflow_path
  pub ref : Holds (get workflow "ref") (tag_ref expected)

workflow_differs-IsWorkflow :
    (expected : Expected) (workflow : Json)
    → workflow_differs expected workflow ≡ false
    → IsWorkflow expected workflow
unfolding workflow_differs
workflow_differs-IsWorkflow expected workflow k =
    let (c, ref) = or-false _ (not (is_text (get workflow "ref") (tag_ref expected))) k in
    let (d, path) = or-false _ (not (is_string (get workflow "path") workflow_path)) c in
    let (plain, repository) = or-false (not (is_plain_object workflow)) _ d in
    record {
      repository = is_text-Holds _ _ (not-false _ repository);
      path = is_string-eq _ _ (not-false _ path);
      ref = is_text-Holds _ _ (not-false _ ref);
    }

-- The source is the repository at the tag, and its commit the one that is expected.
pub record IsSource (expected : Expected) (dependency : Json) : Type 0 where
  pub uri :
      Holds (get dependency "uri") (codes "git+" ++ (github expected ++ b'@' ∷ tag_ref expected))
  pub commit : get (get dependency "digest") "gitCommit" ≡ string expected.source_commit

is_source-IsSource :
    (expected : Expected) (dependency : Json)
    → is_source expected dependency ≡ true
    → IsSource expected dependency
is_source-IsSource expected dependency k =
    let (front, commit) =
      and-true _ (is_string (get (get dependency "digest") "gitCommit") expected.source_commit) k in
    let (plain, uri) = and-true (is_plain_object dependency) _ front in
    record { uri = is_text-Holds _ _ uri; commit = is_string-eq _ _ commit }

-- The invocation is a run of the repository, and the run and the attempt where they are expected.
abbrev pub IsOfRun : List ℕ → List ℕ → Option (Option ℕ) → Type 0
IsOfRun prefix id none =
    (id ≡ prefix) ⊎ ((rest : List ℕ) × (id ≡ (prefix ++ codes "/attempts/") ++ rest))
IsOfRun prefix id (some none) = ⊥
IsOfRun prefix id (some (some n)) = id ≡ attempt_id prefix n

abbrev pub IsExpectedRun : Expected → List ℕ → Option String → Type 0
IsExpectedRun expected id none = Unit
IsExpectedRun expected id (some run_id) =
    IsOfRun (run_prefix expected run_id) id expected.workflow_run_attempt

run_agrees-IsOfRun :
    (prefix id : List ℕ) (attempt : Option (Option ℕ))
    → run_agrees prefix id attempt ≡ true
    → IsOfRun prefix id attempt
run_agrees-IsOfRun prefix id none k = elim (Bool-cases (same_codes id prefix)) [
  | inl e ↦ inl (same_codes-eq id prefix e)
  | inr e ↦ inr (starts_with-append (prefix ++ codes "/attempts/") id (rw e at k))
]
run_agrees-IsOfRun prefix id (some none) k = cc
run_agrees-IsOfRun prefix id (some (some zero)) k = cc
run_agrees-IsOfRun prefix id (some (some (suc n))) k =
    same_codes-eq id (attempt_id prefix (suc n)) k

check_run-IsExpectedRun :
    (expected : Expected) (id : String) (run : Option String)
    → check_run expected id run ≡ returned tt
    → IsExpectedRun expected (codes id) run
check_run-IsExpectedRun expected id none k = tt
check_run-IsExpectedRun expected id (some run_id) k =
    let (c, u) =
      throw_if-returned
        (not (run_agrees (run_prefix expected run_id) (codes id) expected.workflow_run_attempt)) _ _
        tt k in
    run_agrees-IsOfRun _ _ expected.workflow_run_attempt (not-false _ c)

pub record IsInvocation (expected : Expected) (v : Json) (id : String) : Type 0 where
  pub id_text : v ≡ string id
  pub own : (rest : List ℕ) × (codes id ≡ runs_prefix expected ++ rest)
  pub run : IsExpectedRun expected (codes id) expected.workflow_run_id

check_invocation-IsInvocation :
    (expected : Expected) (v : Json) (id : String)
    → check_invocation expected v ≡ returned id
    → IsInvocation expected v id
check_invocation-IsInvocation expected (string s) id k =
    let (own, k₁) =
      throw_if-returned (not (starts_with (runs_prefix expected) (codes s))) _ _ id k in
    let (u, k₂, k₃) = bind-returned (check_run expected s expected.workflow_run_id) _ id k₁ in
    let q : s ≡ id = ground arith in
    subst (IsInvocation expected (string s)) q (record {
      id_text = refl;
      own = starts_with-append (runs_prefix expected) (codes s) (not-false _ own);
      run = check_run-IsExpectedRun expected s expected.workflow_run_id k₂;
    })
check_invocation-IsInvocation expected undefined id k = cc
check_invocation-IsInvocation expected null id k = cc
check_invocation-IsInvocation expected (boolean b) id k = cc
check_invocation-IsInvocation expected (number t) id k = cc
check_invocation-IsInvocation expected (array vs) id k = cc
check_invocation-IsInvocation expected (object fs) id k = cc
check_invocation-IsInvocation expected (opaque t) id k = cc

-- A statement of the release, and the identity that is read from it.
pub record IsStatement (expected : Expected) (predicate_type statement : Json)
    (identity : ProvenanceIdentity) : Type 0 where
  pub provenance : is_provenance_type predicate_type ≡ true
  pub same_type : is_same (get statement "predicateType") predicate_type ≡ true
  pub subject : Json
  pub subject_listed : In subject (element_list (get statement "subject"))
  pub is_subject_of : IsSubject expected subject
  pub workflow : IsWorkflow expected (workflow_of statement)
  pub source : Json
  pub source_listed : In source (element_list (dependencies_of statement))
  pub is_source_of : IsSource expected source
  pub invocation : IsInvocation expected (invocation_of statement) identity.invocation_id

pub statement_identity-IsStatement :
    (expected : Expected) (predicate_type statement : Json) (identity : ProvenanceIdentity)
    → is_provenance_type predicate_type ≡ true
    → is_same (get statement "predicateType") predicate_type ≡ true
    → any (is_subject expected) (element_list (get statement "subject")) ≡ true
    → statement_identity expected predicate_type statement ≡ returned identity
    → IsStatement expected predicate_type statement identity
unfolding statement_identity
statement_identity-IsStatement expected predicate_type statement identity typed same subject k =
    let (workflow, k₁) =
      throw_if-returned (workflow_differs expected (workflow_of statement)) _ _ identity k in
    let (source, k₂) =
      throw_if-returned
        (not (
          is_array (dependencies_of statement)
          && any (is_source expected) (element_list (dependencies_of statement))))
        _ _ identity k₁ in
    let (is_list, sources) =
      and-true (is_array (dependencies_of statement)) _ (not-false _ source) in
    let (s, s_listed, s_is) =
      any-In (is_subject expected) (element_list (get statement "subject")) subject in
    let (d, d_listed, d_is) =
      any-In (is_source expected) (element_list (dependencies_of statement)) sources in
    let (id, k₃, k₄) =
      bind-returned (check_invocation expected (invocation_of statement)) _ identity k₂ in
    let q : id ≡ identity.invocation_id = ground arith in
    record {
      provenance = typed;
      same_type = same;
      subject = s;
      subject_listed = s_listed;
      is_subject_of = is_subject-IsSubject expected s s_is;
      workflow = workflow_differs-IsWorkflow expected _ workflow;
      source = d;
      source_listed = d_listed;
      is_source_of = is_source-IsSource expected d d_is;
      invocation =
          subst (IsInvocation expected (invocation_of statement)) q
            (check_invocation-IsInvocation expected _ id k₃);
    }
