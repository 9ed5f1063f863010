-- ===== src/Recovery/Paths.antt =====
-- scripts/release-recovery.mjs: safeRelativePath, safeFilename and the paths of registryListing.
pub mod Safe
use symbol_nem_wallet_core.Prelude.{
  ℕ, String, Bool, true, false, not, ◌||◌, List, [], ◌∷◌, codes, any, ◌==◌, same_codes,
  if◌then◌else◌, contains,
}
use Prim.Native.String
use symbol_nem_wallet_core.Js.Json.{Json, string, throw_if, error}
use symbol_nem_wallet_core.Js.Outcome.{Outcome, returned, thrown, ◌>>◌, ◌>>=◌}
use symbol_nem_wallet_core.Manifest.Versions.{is_empty}
use symbol_nem_wallet_core.Release.SemVer.{split}

abbrev pub gate : String → String
gate message = String.◌++◌ "Release recovery gate failed: " message

-- value.includes of one character
abbrev pub has : ℕ → List ℕ → Bool
has c cs = any (λ d. d == c) cs

-- part === "" || part === "." || part === ".."
abbrev pub is_special : List ℕ → Bool
is_special part = is_empty part || same_codes part (codes ".") || same_codes part (codes "..")

abbrev pub starts_at_root : List ℕ → Bool
starts_at_root [] = false
starts_at_root (c ∷ cs) = c == b'/'

-- The conditions on a text that is not the empty one.
unfoldable pub is_unsafe_path : List ℕ → Bool
is_unsafe_path cs =
    is_empty cs
    || has b'\\' cs
    || has 10 cs
    || has 13 cs
    || starts_at_root cs
    || any is_special (split b'/' cs)

unfoldable pub safe_relative_path : Json → String → Outcome (Unit {0})
safe_relative_path (string s) label =
    throw_if (is_unsafe_path (codes s)) (gate (String.◌++◌ label " is not a safe relative path"))
      (returned tt)
safe_relative_path _ label =
    thrown (error (gate (String.◌++◌ label " is not a safe relative path")))

unfoldable pub is_unsafe_filename : List ℕ → Bool
is_unsafe_filename cs =
    is_empty cs
    || has b'/' cs
    || has b'\\' cs
    || same_codes cs (codes ".")
    || same_codes cs (codes "..")

unfoldable pub safe_filename : Json → String → Outcome (Unit {0})
safe_filename (string s) label =
    throw_if (is_unsafe_filename (codes s)) (gate (String.◌++◌ label " is not a safe filename"))
      (returned tt)
safe_filename _ label = thrown (error (gate (String.◌++◌ label " is not a safe filename")))
