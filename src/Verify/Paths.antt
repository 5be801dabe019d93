-- ===== src/Verify/Paths.antt =====
-- path/filepath on Unix, as exec.go uses it, and the loop that keeps the directories of a search path.
use mathlib.Core.Option.{bind}
use Prim.Native.String.{◌++◌ as str_append}
use jacu_harness.Base.{
  String, Bool, true, not, ◌&&◌, ◌||◌, List, [], ◌∷◌, ◌++◌, Option, none, some, if◌then◌else◌, ◌==◌,
  String-comparable, contains, select,
}
use jacu_harness.Base.Paths.{clean_path, split_slash, join_slash}
use jacu_harness.Base.Strings.{has_prefix}

-- `filepath.Join` of a directory that is not empty and a name
unfoldable pub join_path : String → String → String
join_path dir name = clean_path (str_append dir (str_append "/" name))

-- the elements of a cleaned path
unfoldable pub elements : String → List String
elements path = select (λ e. not (e == "" || e == ".")) (split_slash (clean_path path))

ups : List String → List String
ups [] = []
ups (e ∷ es) = ".." ∷ ups es

-- from the first element in which the two differ; none where a `..` of the base is in the way
unfoldable pub relative_elements : List String → List String → Option (List String)
unfolding ups
relative_elements [] target = some target
relative_elements (b ∷ base) [] = if b == ".." then none else some (".." ∷ ups base)
relative_elements (b ∷ base) (t ∷ target) =
    let rest = relative_elements base target in
    if b == t then rest else if b == ".." then none else some (".." ∷ (ups base ++ (t ∷ target)))

or_here : List String → String
or_here [] = "."
or_here (e ∷ es) = join_slash (e ∷ es)

-- `filepath.Rel` on Unix
unfoldable pub relative_path : String → String → Option String
unfolding or_here
relative_path base target =
    if has_prefix (clean_path base) "/" && not (has_prefix (clean_path target) "/")
    then none
    else if has_prefix (clean_path target) "/" && not (has_prefix (clean_path base) "/")
    then none
    else bind (relative_elements (elements base) (elements target)) (λ es. some (or_here es))

-- the names that are a directory's, without the ones already there
unfoldable pub existing : (String → Bool) → List String → List String → List String
existing is_dir seen [] = []
existing is_dir seen (dir ∷ dirs) =
    let rest = existing is_dir seen dirs in
    let next = existing is_dir (dir ∷ seen) dirs in
    if dir == "" || (dir == "." || not (has_prefix dir "/"))
    then rest
    else if contains seen dir
    then rest
    else if is_dir dir
    then dir ∷ next
    else next

-- whether a path lies in a directory, that path being resolved
unfoldable pub leads_out : Option String → Bool
leads_out none = true
leads_out (some relative) = relative == ".." || has_prefix relative "../"
