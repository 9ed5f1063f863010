-- ===== src/Facade/Output/Values.antt =====
-- What the facade hands out, whatever the backend returned: names from the known sets, whole
-- numbers in range, and one entry for each entry of a list.
use symbol_nem_wallet_core.Prelude.{
  ℕ, String, ◌≤◌, ◌≡◌, refl, ◌⊎◌, inl, inr, ◌||◌, ◌===◌, none, some, List, [], ◌∷◌, arith,
  Bool-cases, eq_iff, leb, if◌then◌else◌,
}
use symbol_nem_wallet_core.Js.Value.{
  Value, string, array, Items, Number, integer, negative_zero, items,
}
use symbol_nem_wallet_core.Js.Outcome.{
  Outcome, returned, thrown, ◌>>=◌, traverse, Returns, Returns-bind, Returns-returned,
  Returns-thrown,
}
use symbol_nem_wallet_core.Facade.Errors.{binding_failure}
use symbol_nem_wallet_core.Facade.Access.{property, required_string, required_number}
use symbol_nem_wallet_core.Facade.Validate.{max_account_index}
use symbol_nem_wallet_core.Facade.Request.Signing.{IsChain, IsNetwork}
use symbol_nem_wallet_core.Facade.Output.{
  ProfileInfo, Origin, SoftwareKeyInfo, whole_number, derivation_index, no_index, derived_origin,
  keyless_origin, output_network, output_chain, output_profile_info, output_software_key_origin,
  output_software_key_info, output_profiles,
}

-- A whole number; -0 passes the code's tests too.
abbrev pub IsWhole : Number → Type 0
IsWhole n = ((k : ℕ) × (n ≡ integer k)) ⊎ (n ≡ negative_zero)

abbrev pub IsIndex : Number → Type 0
IsIndex n = ((k : ℕ) × (n ≡ integer k) × (k ≤ max_account_index)) ⊎ (n ≡ negative_zero)

abbrev pub IsProfileInfo : ProfileInfo → Type 0
IsProfileInfo p = IsNetwork p.network × IsWhole p.software_key_count

-- A derived key has an index, and the other kinds have none.
abbrev pub IsOrigin : Origin → Type 0
IsOrigin o =
    ((o.kind ≡ "derived") × ((n : Number) × (o.account_index ≡ some n) × IsIndex n))
    ⊎ (((o.kind ≡ "imported") ⊎ (o.kind ≡ "generated")) × (o.account_index ≡ none))

abbrev pub IsSoftwareKeyInfo : SoftwareKeyInfo → Type 0
IsSoftwareKeyInfo k = IsChain k.chain × IsOrigin k.origin

output_network-Returns : (v : Value) → Returns IsNetwork (output_network v)
unfolding output_network
output_network-Returns (string s) = elim (Bool-cases (s === "testnet" || s === "mainnet")) [
  | inl known ↦ rw known (Returns-returned s known)
  | inr other ↦ rw other (Returns-thrown _)
]
output_network-Returns _ = Returns-thrown _

output_chain-Returns : (v : Value) → Returns IsChain (output_chain v)
unfolding output_chain
output_chain-Returns (string s) = elim (Bool-cases (s === "nem" || s === "symbol")) [
  | inl known ↦ rw known (Returns-returned s known)
  | inr other ↦ rw other (Returns-thrown _)
]
output_chain-Returns _ = Returns-thrown _

whole_number-Returns : (n : Number) → Returns IsWhole (whole_number n)
whole_number-Returns (integer k) = Returns-returned _ (inl (k, refl))
whole_number-Returns negative_zero = Returns-returned _ (inr refl)
whole_number-Returns _ = Returns-thrown _

derivation_index-Returns : (n : Number) → Returns IsIndex (derivation_index n)
derivation_index-Returns (integer k) = elim (Bool-cases (leb k max_account_index)) [
  | inl fits ↦ rw fits (Returns-returned _ (inl (k, refl, ground arith)))
  | inr over ↦ rw over (Returns-thrown _)
]
derivation_index-Returns negative_zero = Returns-returned _ (inr refl)
derivation_index-Returns _ = Returns-thrown _

output_profile_info-Returns : (v : Value) → Returns IsProfileInfo (output_profile_info v)
unfolding output_profile_info
output_profile_info-Returns v =
    Returns-bind (property v "profile_id" >>= required_string) _ λ profile_id _.
      Returns-bind (property v "network" >>= output_network) _ λ network t.
        Returns-bind (property v "software_key_count" >>= required_number >>= whole_number) _
          λ count u. Returns-returned _ (
            (Returns-bind (property v "network") output_network
                  (λ w _. output_network-Returns w)).at
                network t,
            (Returns-bind (property v "software_key_count" >>= required_number) whole_number
                  (λ n _. whole_number-Returns n)).at
                count u,
          )

derived_origin-Returns :
    (kind : String) (v : Value) → kind ≡ "derived" → Returns IsOrigin (derived_origin kind v)
derived_origin-Returns kind v e = Returns-bind (required_number v >>= derivation_index) _ λ n t.
    Returns-returned _ (
      inl (
        e,
        (
          n,
          refl,
          (Returns-bind (required_number v) derivation_index (λ m _. derivation_index-Returns m)).at
              n t,
        ),
      ))

keyless_origin-Returns :
    (kind : String) (v : Value)
    → (kind ≡ "imported") ⊎ (kind ≡ "generated")
    → Returns IsOrigin (keyless_origin kind v)
keyless_origin-Returns kind v e =
    Returns-bind (no_index v) _ λ u _. Returns-returned _ (inr (e, refl))

by_kind-Returns :
    (kind : String) (v : Value)
    → Returns IsOrigin (
        if kind === "derived"
        then derived_origin kind v
        else if kind === "imported" || kind === "generated"
        then keyless_origin kind v
        else thrown binding_failure)
by_kind-Returns kind v = elim (Bool-cases (kind === "derived")) [
  | inl derived ↦ rw derived (derived_origin-Returns kind v ((eq_iff _ _).0 derived))
  | inr other ↦ rw other (elim (Bool-cases (kind === "imported" || kind === "generated")) [
    | inl known ↦ rw known (
        keyless_origin-Returns kind v
          (ground (arith, eq_iff kind "imported", eq_iff kind "generated")))
    | inr unknown ↦ rw unknown (Returns-thrown _)
  ])
]

output_software_key_origin-Returns : (v : Value) → Returns IsOrigin (output_software_key_origin v)
unfolding output_software_key_origin
output_software_key_origin-Returns v =
    Returns-bind (property v "kind" >>= required_string) _
      λ kind _. Returns-bind (property v "account_index") _ λ index _. by_kind-Returns kind index

-- A key's information that is handed out names a known chain and a sound origin.
pub output_software_key_info-Returns :
    (v : Value) → Returns IsSoftwareKeyInfo (output_software_key_info v)
unfolding output_software_key_info
output_software_key_info-Returns v =
    Returns-bind (property v "key_id" >>= required_string) _ λ key_id _.
      Returns-bind (property v "chain" >>= output_chain) _ λ chain t.
        Returns-bind (property v "origin" >>= output_software_key_origin) _ λ origin u.
          Returns-returned _ (
            (Returns-bind (property v "chain") output_chain (λ w _. output_chain-Returns w)).at
                chain t,
            (Returns-bind (property v "origin") output_software_key_origin
                  (λ w _. output_software_key_origin-Returns w)).at
                origin u,
          )

-- Entry by entry: each value is what the conversion returns for its source, and `P` holds of it.
abbrev pub Each : {A B : Type 0} → (A → Outcome B) → (B → Type 0) → List A → List B → Type 0
Each f P [] [] = Unit
Each f P (x ∷ xs) (y ∷ ys) = (f x ≡ returned y) × P y × Each f P xs ys
Each f P _ _ = ⊥

traverse-Each :
    {A B : Type 0} (f : A → Outcome B) (P : B → Type 0)
    → ((x : A) → Returns P (f x))
    → (xs : List A) → Returns (Each f P xs) (traverse f xs)
unfolding traverse
traverse-Each f P k [] = Returns-returned [] tt
traverse-Each f P k (x ∷ xs) = Returns-bind (f x) _ λ y t.
    Returns-bind (traverse f xs) _
      λ ys u. Returns-returned _ (t, (k x).at y t, (traverse-Each f P k xs).at ys u)

-- The list of profiles has one entry for each entry of the backend's array, in order, and each has
-- a known network and a whole number of keys.
pub output_profiles-Each :
    (vs : Items) (ps : List ProfileInfo)
    → output_profiles (array vs) ≡ returned ps
    → Each output_profile_info IsProfileInfo (items vs) ps
unfolding output_profiles
output_profiles-Each vs ps t =
    (traverse-Each output_profile_info IsProfileInfo output_profile_info-Returns (items vs)).at ps t
