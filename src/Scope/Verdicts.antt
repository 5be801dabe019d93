-- ===== src/Scope/Verdicts.antt =====
-- The verdict on plain entries: a path is in scope exactly if an allowed directory covers it and no
-- forbidden one does.
use Prim.Native.String.{◌++◌ as str_append}
use text.Mathlib.TextLemmas.{append_assoc}
use mathlib.Core.Bool.{false≢true}
use jacu_harness.Base.{
  ◌≡◌, ◌≢◌, sym, ◌∙◌, ◌⊎◌, inl, inr, ◌↔◌, String, Bool, true, false, not, ◌||◌, List, arith, eq_iff,
  Bool-cases, any, In, All, All-In, String-comparable,
}
use jacu_harness.Base.Paths.{clean_path}
use jacu_harness.Base.Strings.{has_prefix, has_prefix_iff, has_suffix, trim_prefix}
use jacu_harness.Scope.{scope_entry, entry_matches, matches_any, scopes_conflict}
use jacu_harness.Scope.Lists.{any-In, In-any}
use jacu_harness.Scope.Disjoint.{Covers, itself, below}

-- Neither `.` nor `**`, and no `**` at the end.
pub record IsPlain (raw : String) : Type 0 where
  pub not_root : scope_entry raw ≢ "."
  pub not_all : scope_entry raw ≢ "**"
  pub no_glob : has_suffix (scope_entry raw) "**" ≡ false

entry_tests :
    (path raw : String)
    → IsPlain raw
    → (entry_matches path raw ≡ true)
      ↔ ((path ≡ scope_entry raw) ⊎ (has_prefix path (str_append (scope_entry raw) "/") ≡ true))
unfolding entry_matches
entry_tests path raw p = ground (
  arith,
  eq_iff (scope_entry raw) ".",
  eq_iff (scope_entry raw) "**",
  eq_iff path (scope_entry raw),
)

entry_matches-Covers :
    (path raw : String)
    → IsPlain raw
    → entry_matches path raw ≡ true
    → Covers (scope_entry raw) path
entry_matches-Covers path raw p h = elim ((entry_tests path raw p).0 h) [
  | inl e ↦ itself e
  | inr e ↦
      let (rest, q) = (has_prefix_iff path (str_append (scope_entry raw) "/")).0 e in
      below rest (q ∙ append_assoc (scope_entry raw) "/" rest)
]

Covers-entry_matches :
    (path raw : String)
    → IsPlain raw
    → Covers (scope_entry raw) path
    → entry_matches path raw ≡ true
Covers-entry_matches path raw p (itself e) = (entry_tests path raw p).1 (inl e)
Covers-entry_matches path raw p (below rest e) = (entry_tests path raw p).1 (
    inr (
      (has_prefix_iff path (str_append (scope_entry raw) "/")).1
        (rest, e ∙ sym (append_assoc (scope_entry raw) "/" rest))))

-- The path as the tests see it.
abbrev pub cleaned : String → String
cleaned path = trim_prefix (clean_path path) "./"

pub record InScope (path : String) (allowed forbidden : List String) : Type 0 where
  pub entry : String
  pub listed : In entry allowed
  pub covered : Covers (scope_entry entry) (cleaned path)
  pub spared : (f : String) → In f forbidden → ¬ Covers (scope_entry f) (cleaned path)

conflict_tests : (a f : Bool) → ((not a || f) ≡ false) ↔ ((a ≡ true) × (f ≡ false))
conflict_tests a f = ground arith

module _ (path : String) (allowed forbidden : List String) (plain_allowed : All IsPlain allowed)
    (plain_forbidden : All IsPlain forbidden) where
  no_conflict-InScope :
      scopes_conflict path allowed forbidden ≡ false → InScope path allowed forbidden
  unfolding scopes_conflict matches_any
  no_conflict-InScope h =
      let (some_allowed, none_forbidden) = (conflict_tests _ _).0 h in
      let (e, i, m) = any-In (entry_matches (cleaned path)) allowed some_allowed in
      record {
        entry = e;
        listed = i;
        covered = entry_matches-Covers (cleaned path) e (All-In IsPlain allowed plain_allowed i) m;
        spared = λ f j c. false≢true (
            sym none_forbidden
            ∙ In-any (entry_matches (cleaned path)) forbidden f j (
                Covers-entry_matches (cleaned path) f (All-In IsPlain forbidden plain_forbidden j)
                  c));
      }

  InScope-no_conflict :
      InScope path allowed forbidden → scopes_conflict path allowed forbidden ≡ false
  unfolding scopes_conflict matches_any
  InScope-no_conflict s = (conflict_tests _ _).1 (
    In-any (entry_matches (cleaned path)) allowed s.entry s.listed (
        Covers-entry_matches (cleaned path) s.entry (All-In IsPlain allowed plain_allowed s.listed)
          s.covered),
    none_matches,
  )
    where
      none_matches : any (entry_matches (cleaned path)) forbidden ≡ false
      none_matches = elim (Bool-cases (any (entry_matches (cleaned path)) forbidden)) [
        | inr t ↦ t
        | inl t ↦
            let (f, j, m) = any-In (entry_matches (cleaned path)) forbidden t in
            absurd (
              s.spared f j (
                entry_matches-Covers (cleaned path) f (All-In IsPlain forbidden plain_forbidden j)
                  m))
      ]

  -- With plain entries a path is let through exactly if, cleaned, it is an allowed directory or lies
  -- below one, and is no forbidden directory and lies below none.
  pub scopes_conflict_iff :
      (scopes_conflict path allowed forbidden ≡ false) ↔ InScope path allowed forbidden
  scopes_conflict_iff = (no_conflict-InScope, InScope-no_conflict)
