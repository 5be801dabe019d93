-- ===== src/Verify/Allowlist.antt =====
-- allowlist.go: the rules on a command line. `to_lower` is `strings.ToLower`, whose tables are Unicode's.
pub mod Sound
use Prim.Native.Char.{code}
use jacu_harness.Base.{
  ℕ, String, Bool, true, false, not, ◌&&◌, ◌||◌, List, [], ◌∷◌, ◌++◌, Option, none, some,
  if◌then◌else◌, ◌==◌, ℕ-comparable, String-comparable, leb, contains, any, select,
}
use jacu_harness.Base.Paths.{split_slash}
use jacu_harness.Base.Strings.{has_prefix, trim_space, is_empty, trim_prefix}

pub record Entry : Type 0 where
  pub program : String
  pub required_arg_prefix : List String

pub record Config : Type 0 where
  pub allow : List Entry
  pub deny : List String
  pub path_dirs : List String

pub data Refusal : Type 0 where
  missing_program program_path meta_in_program meta_in_arg shell_invocation interpreter_flag
        parent_in_arg :
      Refusal
  absolute_in_arg forced_removal no_allowlist not_in_allowlist : Refusal

abbrev pub entry : String → List String → Entry
entry program prefix = record { program = program; required_arg_prefix = prefix }

-- `globalAllowlist`
unfoldable pub global_allowlist : List Entry
global_allowlist =
    entry "go" ("test" ∷ [])
    ∷ entry "go" ("build" ∷ [])
    ∷ entry "go" ("vet" ∷ [])
    ∷ entry "go" ("fmt" ∷ [])
    ∷ entry "gofmt" []
    ∷ entry "golangci-lint" ("run" ∷ [])
    ∷ entry "cargo" ("test" ∷ [])
    ∷ entry "cargo" ("build" ∷ [])
    ∷ entry "cargo" ("check" ∷ [])
    ∷ entry "cargo" ("clippy" ∷ [])
    ∷ entry "cargo" ("fmt" ∷ [])
    ∷ entry "npm" ("test" ∷ [])
    ∷ entry "npm" ("run" ∷ [])
    ∷ entry "pnpm" ("test" ∷ [])
    ∷ entry "pnpm" ("run" ∷ [])
    ∷ entry "yarn" ("test" ∷ [])
    ∷ entry "pytest" []
    ∷ entry "python" ("-m" ∷ "pytest" ∷ [])
    ∷ entry "python" ("-m" ∷ "unittest" ∷ [])
    ∷ entry "python3" ("-m" ∷ "pytest" ∷ [])
    ∷ entry "python3" ("-m" ∷ "unittest" ∷ [])
    ∷ entry "make" ("test" ∷ [])
    ∷ entry "make" ("build" ∷ [])
    ∷ entry "make" ("check" ∷ [])
    ∷ entry "make" ("lint" ∷ [])
    ∷ entry "git" ("status" ∷ [])
    ∷ entry "git" ("diff" ∷ [])
    ∷ entry "git" ("log" ∷ [])
    ∷ []

-- `New`
unfoldable pub new_allowlist : Config → List Entry
new_allowlist config =
    select (λ e. not (contains config.deny e.program)) (global_allowlist ++ config.allow)

-- `strings.Contains(s, part)`
unfoldable pub has_part : String → String → Bool
has_part String.[] part = has_prefix "" part
has_part (String.◌∷◌ c s) part = has_prefix (String.◌∷◌ c s) part || has_part s part

-- `shellMeta`
unfoldable pub shell_meta : List String
shell_meta = ";" ∷ "|" ∷ "&" ∷ "$(" ∷ "`" ∷ ">" ∷ "<" ∷ "\n" ∷ []

unfoldable pub shell_programs : List String
shell_programs =
    "sh" ∷ "bash" ∷ "zsh" ∷ "dash" ∷ "fish" ∷ "ksh" ∷ "cmd.exe" ∷ "cmd" ∷ "powershell" ∷ "pwsh" ∷ []

unfoldable pub interpreter_flags : List String
interpreter_flags = "-c" ∷ "/C" ∷ "/c" ∷ "-e" ∷ "-E" ∷ "--eval" ∷ "--exec" ∷ []

unfoldable pub contains_shell_meta : String → Bool
unfolding has_part
contains_shell_meta value = any (has_part value) shell_meta

-- `strings.ReplaceAll(s, "\\", "/")`
unfoldable pub with_slashes : String → String
with_slashes String.[] = ""
with_slashes (String.◌∷◌ c s) =
    if code c == b'\\' then String.◌∷◌ "/" (with_slashes s) else String.◌∷◌ c (with_slashes s)

unfoldable pub has_parent_segment : String → Bool
unfolding with_slashes
has_parent_segment arg = any (λ s. s == "..") (split_slash (with_slashes arg))

abbrev pub is_ascii_letter : ℕ → Bool
is_ascii_letter c = (leb b'a' c && leb c b'z') || (leb b'A' c && leb c b'Z')

-- `X:\` or `X:/` in front. The code looks at bytes; the first is a letter only if it is a character.
is_drive : String → Bool
is_drive (String.◌∷◌ a (String.◌∷◌ b (String.◌∷◌ c s))) =
    code b == b':' && ((code c == b'\\' || code c == b'/') && is_ascii_letter (code a))
is_drive s = false

unfoldable pub is_absolute_path : String → Bool
unfolding is_drive
is_absolute_path arg = has_prefix arg "/" || is_drive arg

has_char : (ℕ → Bool) → String → Bool
has_char p String.[] = false
has_char p (String.◌∷◌ c s) = p (code c) || has_char p s

-- The two flags that one argument sets: recursive, and forced.
removal_flags : String → Bool × Bool
unfolding has_char
removal_flags arg =
    if arg == "--recursive"
    then (true, false)
    else if arg == "--force"
    then (false, true)
    else if has_prefix arg "--"
    then (false, false)
    else if has_prefix arg "-"
    then (
      has_char (λ c. c == b'r' || c == b'R') (trim_prefix arg "-"),
      has_char (λ c. c == b'f') (trim_prefix arg "-"),
    )
    else (false, false)

unfoldable pub is_recursive_forced_removal : String → List String → Bool
unfolding removal_flags
is_recursive_forced_removal program args =
    program == "rm" && (any (λ a. (removal_flags a).0) args && any (λ a. (removal_flags a).1) args)

-- `slices.Equal` of the arguments, cut to the length of the prefix, and the prefix
unfoldable pub starts_with_args : List String → List String → Bool
starts_with_args [] args = true
starts_with_args (p ∷ ps) [] = false
starts_with_args (p ∷ ps) (a ∷ args) = p == a && starts_with_args ps args

unfoldable pub entry_admits : Entry → String → List String → Bool
unfolding starts_with_args
entry_admits e program args = e.program == program && starts_with_args e.required_arg_prefix args

-- `strings.ContainsAny(program, "/\\")`
unfoldable pub has_separator : String → Bool
unfolding has_char
has_separator program = has_char (λ c. c == b'/' || c == b'\\') program

unfoldable pub first_is_flag : List String → Bool
first_is_flag [] = false
first_is_flag (a ∷ args) = contains interpreter_flags a

-- the loop over the arguments that looks at paths
unfoldable pub check_paths : List String → Option Refusal
check_paths [] = none
check_paths (a ∷ args) =
    let rest = check_paths args in
    if has_parent_segment a
    then some parent_in_arg
    else if is_absolute_path a
    then some absolute_in_arg
    else rest

abbrev pub is_none_listed : List Entry → Bool
is_none_listed [] = true
is_none_listed (e ∷ es) = false

-- the rules behind the loop over the paths
unfoldable pub check_listed : List Entry → String → List String → Option Refusal
check_listed entries program args =
    if is_recursive_forced_removal program args
    then some forced_removal
    else if is_none_listed entries
    then some no_allowlist
    else if any (λ e. entry_admits e program args) entries
    then none
    else some not_in_allowlist

unfoldable pub or_refused : Option Refusal → Option Refusal → Option Refusal
or_refused none r = r
or_refused (some e) r = some e

-- `Check`: none where the command may run
unfoldable pub check : (String → String) → List Entry → List String → Option Refusal
unfolding check_paths check_listed or_refused
check to_lower entries [] = some missing_program
check to_lower entries (program ∷ args) =
    if is_empty (trim_space program)
    then some missing_program
    else if has_separator program
    then some program_path
    else if contains_shell_meta program
    then some meta_in_program
    else if any contains_shell_meta args
    then some meta_in_arg
    else if contains shell_programs (to_lower program)
    then some shell_invocation
    else if first_is_flag args
    then some interpreter_flag
    else or_refused (check_paths args) (check_listed entries program args)
