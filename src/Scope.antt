-- ===== src/Scope.antt =====
-- internal/scope/scope.go: the write-scope verdict on paths. `filepath.ToSlash` is the identity on
-- Unix.
pub mod Verdicts
pub mod Lists
pub mod Disjoint
mod Tests
use Prim.Native.Char.{code}
use Prim.Native.String.{len, ◌++◌ as str_append}
use jacu_harness.Base.{
  ℕ, String, Bool, true, false, not, ◌&&◌, ◌||◌, List, [], ◌∷◌, Option, none, some, ltb,
  if◌then◌else◌, ◌==◌, ℕ-comparable, String-comparable, any,
}
use jacu_harness.Base.Paths.{clean_path}
use jacu_harness.Base.Strings.{
  after_prefix, has_prefix, trim_prefix, has_suffix, trim_suffix, trim_space, is_empty,
}

-- the entry of a scope list as the loop of `MatchesAny` reads it
unfoldable pub scope_entry : String → String
scope_entry raw = trim_suffix (trim_space raw) "/"

-- the two tests of the loop's body, on a cleaned path
unfoldable pub entry_matches : String → String → Bool
unfolding scope_entry
entry_matches path raw =
    let scope = scope_entry raw in
    (scope == "." || (scope == "**" || (path == scope || has_prefix path (str_append scope "/"))))
    || (has_suffix scope "**" && has_prefix path (trim_suffix scope "**"))

unfoldable pub matches_any : String → List String → Bool
matches_any path scopes = any (entry_matches (trim_prefix (clean_path path) "./")) scopes

unfoldable pub scopes_conflict : String → List String → List String → Bool
scopes_conflict path allowed forbidden =
    not (matches_any path allowed) || matches_any path forbidden

-- the text before the first `*` or `?`
pub before_glob : String → String
before_glob String.[] = ""
before_glob (String.◌∷◌ c s) =
    let rest = before_glob s in if code c == b'*' || code c == b'?' then "" else String.◌∷◌ c rest

unfoldable pub normalize_scope : String → String
unfolding before_glob
normalize_scope path = trim_suffix (before_glob (trim_space path)) "/"

-- The byte `path[len(prefix)]` is the first one behind the prefix.
abbrev pub slash_follows : Option String → Bool
slash_follows none = false
slash_follows (some String.[]) = false
slash_follows (some (String.◌∷◌ c s)) = code c == b'/'

unfoldable pub dir_prefix : String → String → Bool
dir_prefix prefix path = not (is_empty prefix) && slash_follows (after_prefix prefix path)

-- one round of the inner loop
unfoldable pub pair_conflicts : String → String → Bool
pair_conflicts left right =
    let l = normalize_scope left in
    let r = normalize_scope right in l == r || (dir_prefix l r || dir_prefix r l)

abbrev is_nil : List String → Bool
is_nil [] = true
is_nil (x ∷ xs) = false

unfoldable pub lists_conflict : List String → List String → Bool
lists_conflict left right =
    (is_nil left || is_nil right)
    || (any (λ raw. is_empty (normalize_scope raw)) left
        || (any (λ raw. is_empty (normalize_scope raw)) right
            || any (λ l. any (pair_conflicts l) right) left))
