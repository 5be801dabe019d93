-- ===== src/RunState/Ids.antt =====
-- `ValidRunID`: an accepted id is a plain file name.
use Prim.Native.Char.{code}
use Prim.Native.String.{len}
use text.Mathlib.TextLemmas.{nil-append, cons-append}
use jacu_harness.Base.{
  ℕ, ◌+◌, ◌≡◌, ◌≢◌, refl, sym, subst, String, Bool, true, false, not, ◌&&◌, ◌||◌, [], ◌∷◌, arith,
  leb, if◌then◌else◌, ◌==◌, ℕ-comparable, some,
}
use jacu_harness.Base.Strings.{
  has_prefix, has_prefix_iff, after_prefix, after_prefix-append, trim_prefix,
}
use jacu_harness.Base.Paths.{split_slash}

pub id_char : ℕ → Bool
id_char c = (leb b'a' c && leb c b'f') || (leb b'0' c && leb c b'9')

pub all_id_chars : String → Bool
unfolding id_char
all_id_chars String.[] = true
all_id_chars (String.◌∷◌ c s) = if id_char (code c) then all_id_chars s else false

unfoldable pub valid_run_id : String → Bool
unfolding all_id_chars
valid_run_id run_id =
    if not (len run_id == 4 + 16) || not (has_prefix run_id "run_")
    then false
    else all_id_chars (trim_prefix run_id "run_")

-- Letters, digits and `_`: none of them separates path elements or starts a dotted name.
abbrev pub AllSafe : String → Type 0
AllSafe String.[] = Unit
AllSafe (String.◌∷◌ c s) = (code c ≢ b'/') × (code c ≢ b'.') × AllSafe s

all_id_chars-AllSafe : (s : String) → all_id_chars s ≡ true → AllSafe s
unfolding all_id_chars
all_id_chars-AllSafe String.[] h = tt
all_id_chars-AllSafe (String.◌∷◌ c s) h =
    (ground arith, ground arith, all_id_chars-AllSafe s (ground arith))

AllSafe-after_prefix :
    (p s r : String) → after_prefix p s ≡ some r → AllSafe p → AllSafe r → AllSafe s
unfolding after_prefix
AllSafe-after_prefix String.[] s r h a b = subst AllSafe (sym (ground arith)) b
AllSafe-after_prefix (String.◌∷◌ c p) String.[] r h a b = tt
AllSafe-after_prefix (String.◌∷◌ c p) (String.◌∷◌ d s) r h a b =
    let same : code c ≡ code d = ground arith in
    (rw (← same) a.0, rw (← same) a.1, AllSafe-after_prefix p s r (ground arith) a.2 b)

AllSafe-one_element : (s : String) → AllSafe s → split_slash s ≡ s ∷ []
unfolding split_slash
AllSafe-one_element String.[] a = refl
AllSafe-one_element (String.◌∷◌ c s) a =
    let other : (code c == b'/') ≡ false = ground arith in
    rw (other, AllSafe-one_element s a.2, cons-append, nil-append) refl

trim_prefix-eq_of_after : (p s r : String) → after_prefix p s ≡ some r → trim_prefix s p ≡ r
unfolding trim_prefix
trim_prefix-eq_of_after p s r h = ground arith

-- An accepted run id has 20 bytes, and neither a slash nor a dot: joined to the directory of the
-- runs it names one file there, and no other directory.
pub valid_run_id-AllSafe :
    (id : String) → valid_run_id id ≡ true → (len id ≡ 20) × AllSafe id × (split_slash id ≡ id ∷ [])
unfolding valid_run_id
valid_run_id-AllSafe id h =
    let prefixed : has_prefix id "run_" ≡ true = ground arith in
    let (r, e) = (has_prefix_iff id "run_").0 prefixed in
    let split : after_prefix "run_" id ≡ some r =
      subst (λ x. after_prefix "run_" x ≡ some r) (sym e) (after_prefix-append "run_" r) in
    let trimmed = trim_prefix-eq_of_after "run_" id r split in
    let chars : all_id_chars (trim_prefix id "run_") ≡ true = ground arith in
    let tail = all_id_chars-AllSafe r (rw trimmed at chars) in
    let safe = AllSafe-after_prefix "run_" id r split (omega arith) tail in
    (ground arith, safe, AllSafe-one_element id safe)
