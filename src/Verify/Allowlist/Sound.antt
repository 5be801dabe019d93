-- ===== src/Verify/Allowlist/Sound.antt =====
-- What the rules let through.
use jacu_harness.Base.{
  ◌≡◌, refl, String, Bool, true, false, not, List, [], ◌∷◌, ◌++◌, Option, none, some, arith, eq_iff,
  subst, inl, inr, ◌⊎◌, Bool-cases, String-comparable, In, any, contains, select-In, append-In,
  In-contains, ◌==◌,
}
use jacu_harness.Base.Paths.{split_slash}
use jacu_harness.Base.Strings.{trim_space, is_empty}
use jacu_harness.Verify.Allowlist.{
  Entry, Config, Refusal, global_allowlist, new_allowlist, contains_shell_meta, shell_programs,
  has_parent_segment, is_absolute_path, is_recursive_forced_removal, starts_with_args, entry_admits,
  has_separator, first_is_flag, shell_meta, interpreter_flags, has_part, with_slashes, check_paths,
  check_listed, or_refused, check,
}

-- No part of a shell's syntax stands in the text.
abbrev pub IsPlain : String → Type 0
IsPlain a =
    (m : String)
    → In m (";" ∷ "|" ∷ "&" ∷ "$(" ∷ "`" ∷ ">" ∷ "<" ∷ "\n" ∷ [])
    → has_part a m ≡ false

-- A command line that may run: a bare name of a program that is no shell; no character of a shell in
-- any part; no flag that evaluates text; no argument that leads out of the directory; no forced removal
-- of a tree; and an entry, of the binary or the project, that the project does not deny, and whose
-- arguments stand first.
pub record IsAdmitted (to_lower : String → String) (config : Config) (program : String)
    (args : List String) : Type 0 where
  pub named : is_empty (trim_space program) ≡ false
  pub bare : has_separator program ≡ false
  pub no_meta : IsPlain program
  pub no_meta_args : (a : String) → In a args → IsPlain a
  pub no_shell : ¬ In (to_lower program) (
      "sh" ∷ "bash" ∷ "zsh" ∷ "dash" ∷ "fish" ∷ "ksh" ∷ "cmd.exe" ∷ "cmd" ∷ "powershell" ∷ "pwsh"
      ∷ [])
  pub no_flag :
      (a : String) (rest : List String)
      → args ≡ a ∷ rest
      → ¬ In a ("-c" ∷ "/C" ∷ "/c" ∷ "-e" ∷ "-E" ∷ "--eval" ∷ "--exec" ∷ [])
  pub inside :
      (a : String)
      → In a args
      → (¬ In ".." (split_slash (with_slashes a))) × (is_absolute_path a ≡ false)
  pub no_removal : is_recursive_forced_removal program args ≡ false
  pub listed : Entry
  pub of_list : In listed global_allowlist ⊎ In listed config.allow
  pub not_denied : ¬ In program config.deny
  pub same_program : listed.program ≡ program
  pub others : List String
  pub prefix : args ≡ listed.required_arg_prefix ++ others

any-false :
    (f : String → Bool) (l : List String) (a : String) → any f l ≡ false → In a l → f a ≡ false
any-false f [] a h i = elim i [ ]
any-false f (x ∷ l) a h (inl e) = ground arith
any-false f (x ∷ l) a h (inr i) =
    let rest : any f l ≡ false = ground arith in any-false f l a rest i

not_contained : (l : List String) (a : String) → contains l a ≡ false → ¬ In a l
not_contained l a h i = let k = In-contains l a i in ground arith

plain : (a : String) → contains_shell_meta a ≡ false → IsPlain a
unfolding contains_shell_meta shell_meta
plain a h m i = any-false (has_part a) shell_meta m h i

no_shell_program :
    (p : String)
    → contains shell_programs p ≡ false
    → ¬ In p (
        "sh" ∷ "bash" ∷ "zsh" ∷ "dash" ∷ "fish" ∷ "ksh" ∷ "cmd.exe" ∷ "cmd" ∷ "powershell" ∷ "pwsh"
        ∷ [])
unfolding shell_programs
no_shell_program p h = not_contained shell_programs p h

no_eval_flag :
    (args : List String) (a : String) (rest : List String)
    → first_is_flag args ≡ false
    → args ≡ a ∷ rest
    → ¬ In a ("-c" ∷ "/C" ∷ "/c" ∷ "-e" ∷ "-E" ∷ "--eval" ∷ "--exec" ∷ [])
unfolding first_is_flag interpreter_flags
no_eval_flag args a rest h e = not_contained interpreter_flags a (rw e at h)

no_parent : (a : String) → has_parent_segment a ≡ false → ¬ In ".." (split_slash (with_slashes a))
unfolding has_parent_segment
no_parent a h i =
    let dots : String = ".." in
    let up : (dots == dots) ≡ false =
      any-false (λ s. s == dots) (split_slash (with_slashes a)) dots h i in
    let same : (dots == dots) ≡ true = (eq_iff dots dots).1 refl in cc

starts_with-split :
    (ps args : List String)
    → starts_with_args ps args ≡ true
    → (rest : List String) × (args ≡ ps ++ rest)
unfolding starts_with_args
starts_with-split [] args h = (args, refl)
starts_with-split (p ∷ ps) [] h = absurd (ground arith)
starts_with-split (p ∷ ps) (a ∷ args) h =
    let tail : starts_with_args ps args ≡ true = ground arith in
    let head : p ≡ a = ground (arith, eq_iff p a) in
    let (rest, e) = starts_with-split ps args tail in (rest, rw (head, e) refl)

check_paths-inside :
    (args : List String) (a : String)
    → check_paths args ≡ none
    → In a args
    → (has_parent_segment a ≡ false) × (is_absolute_path a ≡ false)
unfolding check_paths
check_paths-inside [] a h i = elim i [ ]
check_paths-inside (x ∷ args) a h (inl e) =
    let both : (has_parent_segment x ≡ false) × (is_absolute_path x ≡ false) = ground arith in
    rw e both
check_paths-inside (x ∷ args) a h (inr i) =
    let rest : check_paths args ≡ none = ground arith in check_paths-inside args a rest i

any-In : (f : Entry → Bool) (l : List Entry) → any f l ≡ true → (e : Entry) × In e l × (f e ≡ true)
any-In f [] h = absurd (ground arith)
any-In f (x ∷ l) h = elim (Bool-cases (f x)) [
  | inl t ↦ (x, inl refl, t)
  | inr t ↦
      let rest : any f l ≡ true = ground arith in let (e, i, k) = any-In f l rest in (e, inr i, k)
]

-- what passes the rules that do not look at the list
record Passes (to_lower : String → String) (entries : List Entry) (program : String)
    (args : List String) : Type 0 where
  pub named : is_empty (trim_space program) ≡ false
  pub bare : has_separator program ≡ false
  pub no_meta : contains_shell_meta program ≡ false
  pub no_meta_args : any contains_shell_meta args ≡ false
  pub no_shell : contains shell_programs (to_lower program) ≡ false
  pub no_flag : first_is_flag args ≡ false
  pub paths : check_paths args ≡ none
  pub listed : check_listed entries program args ≡ none

or_refused-none : (r s : Option Refusal) → or_refused r s ≡ none → (r ≡ none) × (s ≡ none)
unfolding or_refused
or_refused-none none s h = (refl, h)
or_refused-none (some e) s h = absurd (ground arith)

check-Passes :
    (to_lower : String → String) (entries : List Entry) (program : String) (args : List String)
    → check to_lower entries (program ∷ args) ≡ none
    → Passes to_lower entries program args
unfolding check
check-Passes to_lower entries program args h =
    let last : or_refused (check_paths args) (check_listed entries program args) ≡ none =
      ground arith in
    let (paths, listed) = or_refused-none _ _ last in
    record {
      named = ground arith;
      bare = ground arith;
      no_meta = ground arith;
      no_meta_args = ground arith;
      no_shell = ground arith;
      no_flag = ground arith;
      paths = paths;
      listed = listed;
    }

record Listed (entries : List Entry) (program : String) (args : List String) : Type 0 where
  pub entry : Entry
  pub of_list : In entry entries
  pub admits : entry_admits entry program args ≡ true
  pub no_removal : is_recursive_forced_removal program args ≡ false

check_listed-Listed :
    (entries : List Entry) (program : String) (args : List String)
    → check_listed entries program args ≡ none
    → Listed entries program args
unfolding check_listed
check_listed-Listed entries program args h =
    let found : any (λ e. entry_admits e program args) entries ≡ true = ground arith in
    let (e, i, k) = any-In (λ e. entry_admits e program args) entries found in
    record { entry = e; of_list = i; admits = k; no_removal = ground arith }

new_allowlist-In :
    (config : Config) (e : Entry)
    → In e (new_allowlist config)
    → (In e global_allowlist ⊎ In e config.allow) × (contains config.deny e.program ≡ false)
unfolding new_allowlist
new_allowlist-In config e i =
    let (j, d) =
      select-In (λ (e : Entry). not (contains config.deny e.program)) e
        (global_allowlist ++ config.allow) i in
    (append-In e global_allowlist config.allow j, ground arith)

entry_admits-split :
    (e : Entry) (program : String) (args : List String)
    → entry_admits e program args ≡ true
    → (e.program ≡ program) × (starts_with_args e.required_arg_prefix args ≡ true)
unfolding entry_admits
entry_admits-split e program args h = ground (arith, eq_iff e.program program)

-- A command line that `Check` lets through, against the list composed from the project's
-- configuration, is admitted by every rule.
pub check-IsAdmitted :
    (to_lower : String → String) (config : Config) (program : String) (args : List String)
    → check to_lower (new_allowlist config) (program ∷ args) ≡ none
    → IsAdmitted to_lower config program args
check-IsAdmitted to_lower config program args h =
    let p = check-Passes to_lower (new_allowlist config) program args h in
    let l = check_listed-Listed (new_allowlist config) program args p.listed in
    let (of_list, allowed) = new_allowlist-In config l.entry l.of_list in
    let (same, starts) = entry_admits-split l.entry program args l.admits in
    let (others, prefix) = starts_with-split l.entry.required_arg_prefix args starts in
    record {
      named = p.named;
      bare = p.bare;
      no_meta = plain program p.no_meta;
      no_meta_args = λ a i. plain a (any-false contains_shell_meta args a p.no_meta_args i);
      no_shell = no_shell_program (to_lower program) p.no_shell;
      no_flag = λ a rest e. no_eval_flag args a rest p.no_flag e;
      inside =
          λ a i. let (up, rooted) = check_paths-inside args a p.paths i in (no_parent a up, rooted);
      no_removal = l.no_removal;
      listed = l.entry;
      of_list = of_list;
      not_denied =
          not_contained config.deny program
            (subst (λ q. contains config.deny q ≡ false) same allowed);
      others = others;
      same_program = same;
      prefix = prefix;
    }
