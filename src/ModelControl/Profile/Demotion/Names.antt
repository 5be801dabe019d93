-- ===== src/ModelControl/Profile/Demotion/Names.antt =====
-- What a sanitized text is.
use Prim.Native.Char.{code}
use jacu_harness.Base.{
  ℕ, suc, ◌+◌, ◌≤◌, ◌<◌, ◌≡◌, inl, inr, String, true, false, arith, leb, if◌then◌else◌, ◌==◌,
  String-comparable, Bool-cases,
}
use jacu_harness.Base.Strings.{trim_space, is_empty}
use jacu_harness.ModelControl.Profile.Demotion.{sanitize, keep_plain, is_plain}

-- Only letters, digits, `-`, `_`, `.` and spaces.
abbrev pub IsPlain : String → Type 0
IsPlain String.[] = Unit
IsPlain (String.◌∷◌ c s) = (is_plain (code c) ≡ true) × IsPlain s

abbrev pub size : String → ℕ
size String.[] = 0
size (String.◌∷◌ c s) = suc (size s)

keep_plain-cases :
    (P : String → Type 0) (built : ℕ) (s : String)
    → P ""
    → P (keep_plain built s)
    → P (if leb 80 built then "" else keep_plain built s)
keep_plain-cases P built s e k = elim (Bool-cases (leb 80 built)) [
  | inl t ↦ rw t e
  | inr t ↦ rw t k
]

keep_plain-IsPlain : (built : ℕ) (s : String) → IsPlain (keep_plain built s)
unfolding keep_plain
keep_plain-IsPlain built String.[] = tt
keep_plain-IsPlain built (String.◌∷◌ c s) = elim (Bool-cases (is_plain (code c))) [
  | inl t ↦ rw t (t, keep_plain-cases IsPlain (built + 1) s tt (keep_plain-IsPlain (built + 1) s))
  | inr t ↦ rw t (keep_plain-cases IsPlain built s tt (keep_plain-IsPlain built s))
]

size-keep_plain : (built : ℕ) (s : String) → built < 80 → built + size (keep_plain built s) ≤ 80
unfolding keep_plain
size-keep_plain built String.[] h = omega arith
size-keep_plain built (String.◌∷◌ c s) h = elim (Bool-cases (is_plain (code c))) [
  | inl t ↦ elim (Bool-cases (leb 80 (built + 1))) [
    | inl full ↦ rw (t, full) (omega arith)
    | inr room ↦ rw (t, room) (omega (arith, size-keep_plain (built + 1) s (ground arith)))
  ]
  | inr t ↦ elim (Bool-cases (leb 80 built)) [
    | inl full ↦ absurd (ground arith)
    | inr room ↦ rw (t, room) (size-keep_plain built s h)
  ]
]

abbrev Fits : String → Type 0
Fits s = IsPlain s × (1 ≤ size s) × (size s ≤ 80)

Fits-unknown : Fits "unknown"
unfolding is_plain
Fits-unknown = (ground arith, omega arith, omega arith)

not-is_empty-size : (s : String) → is_empty s ≡ false → 1 ≤ size s
not-is_empty-size String.[] h = cc
not-is_empty-size (String.◌∷◌ c s) h = omega arith

-- A sanitized text has from one to eighty characters, all of them letters, digits, `-`, `_`, `.` or
-- spaces, whatever the input: no control character reaches an event.
sanitize-IsPlain :
    (value : String)
    → IsPlain (sanitize value) × (1 ≤ size (sanitize value)) × (size (sanitize value) ≤ 80)
unfolding sanitize
sanitize-IsPlain value = elim (Bool-cases (trim_space value == "")) [
  | inl blank ↦ rw blank Fits-unknown
  | inr text ↦
      let kept = keep_plain 0 (trim_space value) in
      elim (Bool-cases (is_empty kept)) [
        | inl none_left ↦ rw (text, none_left) Fits-unknown
        | inr some_left ↦
            rw (text, some_left)
              (
                keep_plain-IsPlain 0 (trim_space value),
                not-is_empty-size kept some_left,
                omega (arith, size-keep_plain 0 (trim_space value) (omega arith)),
              )
      ]
]
