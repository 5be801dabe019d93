-- ===== src/Scope/Tests.antt =====
-- Scope verdicts at concrete paths, and the theorems applied there.
use jacu_harness.Base.{◌≡◌, ◌↔◌, refl, inl, true, false, [], ◌∷◌, arith, eq_iff}
use jacu_harness.Base.Paths.{clean_path}
use jacu_harness.Base.Strings.{has_prefix, has_suffix, trim_prefix, trim_suffix, trim_space}
use jacu_harness.Scope.{
  scope_entry, entry_matches, matches_any, scopes_conflict, normalize_scope, lists_conflict,
  pair_conflicts, dir_prefix,
}
use jacu_harness.Scope.Disjoint.{Covers, itself, lists_conflict-disjoint}
use jacu_harness.Scope.Verdicts.{IsPlain, InScope, scopes_conflict_iff}

docs-IsPlain : IsPlain "docs/"
unfolding scope_entry trim_space trim_suffix has_suffix
docs-IsPlain = record {
  not_root = ground (arith, eq_iff "docs" ".");
  not_all = ground (arith, eq_iff "docs" "**");
  no_glob = refl;
}

scopes_conflict_iff_example :
    (scopes_conflict "./docs/a.md" ("docs/" ∷ []) [] ≡ false)
    ↔ InScope "./docs/a.md" ("docs/" ∷ []) []
scopes_conflict_iff_example =
    scopes_conflict_iff "./docs/a.md" ("docs/" ∷ []) [] (docs-IsPlain, tt) tt

docs_sibling : scopes_conflict "docs2/a.md" ("docs/" ∷ []) [] ≡ true
unfolding scopes_conflict matches_any entry_matches clean_path trim_space trim_suffix trim_prefix
    has_prefix has_suffix
docs_sibling = refl

siblings : lists_conflict ("docs" ∷ []) ("docs2/*.md" ∷ []) ≡ false
unfolding lists_conflict normalize_scope pair_conflicts dir_prefix has_prefix trim_space trim_suffix
siblings = refl

docs_itself : Covers (normalize_scope "docs") "docs"
unfolding normalize_scope trim_space trim_suffix
docs_itself = itself refl

lists_conflict-disjoint_example : ¬ Covers (normalize_scope "docs2/*.md") "docs"
lists_conflict-disjoint_example =
    lists_conflict-disjoint ("docs" ∷ []) ("docs2/*.md" ∷ []) "docs" "docs2/*.md" "docs" siblings
      (inl refl) (inl refl) docs_itself

-- The two verdicts disagree on a `**` that follows a name: the lists share a wave, and both let the
-- path through.
glob_escapes_wave :
    (lists_conflict ("docs**" ∷ []) ("docs2" ∷ []) ≡ false)
    × (scopes_conflict "docs2/x" ("docs**" ∷ []) [] ≡ false)
    × (scopes_conflict "docs2/x" ("docs2" ∷ []) [] ≡ false)
unfolding lists_conflict normalize_scope pair_conflicts dir_prefix scopes_conflict matches_any
    entry_matches clean_path trim_space trim_suffix trim_prefix has_prefix has_suffix
glob_escapes_wave = (refl, refl, refl)
