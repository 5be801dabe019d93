-- ===== src/Base/Paths.antt =====
-- `filepath.Clean` on Unix: lexical, with no look at the file system.
use Prim.Native.Char.{code}
use Prim.Native.String.{◌++◌ as str_append}
use mathlib.Core.List.{foldl, reverse}
use jacu_harness.Base.{
  String, Bool, List, [], ◌∷◌, ◌≡◌, refl, if◌then◌else◌, ◌==◌, ℕ-comparable, String-comparable,
  ◌||◌,
}
use jacu_harness.Base.Strings.{has_prefix}

abbrev pub onto_head : String → List String → List String
onto_head s [] = s ∷ []
onto_head s (x ∷ xs) = str_append s x ∷ xs

-- `strings.Split(s, "/")`
unfoldable pub split_slash : String → List String
split_slash String.[] = "" ∷ []
split_slash (String.◌∷◌ c s) =
    let rest = split_slash s in
    if code c == b'/' then "" ∷ rest else onto_head (String.◌∷◌ c "") rest

-- `strings.Join(l, "/")`
pub join_slash : List String → String
join_slash [] = ""
join_slash (x ∷ []) = x
join_slash (x ∷ y ∷ l) = str_append x (str_append "/" (join_slash (y ∷ l)))

-- `..` takes back the element before it, if there is one that is not `..`; at the root it is dropped.
parent : Bool → List String → List String
parent rooted [] = if rooted then [] else ".." ∷ []
parent rooted (x ∷ l) = if x == ".." then ".." ∷ x ∷ l else l

-- One element of the path onto the elements kept, last first.
clean_step : Bool → List String → String → List String
unfolding parent
clean_step rooted kept el =
    if el == "" || el == "." then kept else if el == ".." then parent rooted kept else el ∷ kept

or_dot : String → String
or_dot s = if s == "" then "." else s

unfoldable pub clean_path : String → String
unfolding clean_step split_slash join_slash or_dot
clean_path path =
    let rooted = has_prefix path "/" in
    let kept = join_slash (reverse (foldl (clean_step rooted) [] (split_slash path))) in
    if rooted then str_append "/" kept else or_dot kept

clean_path_dots : clean_path "./a//b/../c/." ≡ "a/c"
unfolding clean_path has_prefix
clean_path_dots = refl

clean_path_root : clean_path "/../a" ≡ "/a"
unfolding clean_path has_prefix
clean_path_root = refl

clean_path_empty : clean_path "" ≡ "."
unfolding clean_path has_prefix
clean_path_empty = refl
