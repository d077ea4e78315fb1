-- ===== src/Prelude/Text.antt =====
-- What the source uses of Go's strings. `len` counts bytes as Go's does. The functions that fold
-- case do so for ASCII letters, so any other letter is equal to itself alone.
use Prim.Native.Char.{Char, code}
use Prim.Native.Nat.{ℕ, ◌+◌, ◌-◌}
use Prim.Native.String.append
use Prim.Native.String.{String, len, slice, ◌++◌}
use mathlib.Core.Path.{◌≡◌}
use mathlib.Core.Logic.{◌↔◌, inl, inr}
use mathlib.Core.Bool.{Bool, true, false, ◌&&◌, ◌||◌}
use mathlib.Core.List.{List, [], ◌∷◌}
use text.Mathlib.Text.{◌==◌ as text_eq, starts_with}
use text.Mathlib.TextEquality.{eq_iff}
use text.Mathlib.TextPositions.{eq_refl, starts_with-append}
use native.Mathlib.Omega.{arith}
use mcp_server_dynamodb_sage.Prelude.Tests.{Bool-cases, leb, ◌==◌, if◌then◌else◌}

-- s == t
unfoldable pub str_eq : String → String → Bool
str_eq s t = text_eq s t

pub str_eq_iff : (s t : String) → (str_eq s t ≡ true) ↔ (s ≡ t)
unfolding str_eq
str_eq_iff = eq_iff

pub str_eq_refl : (s : String) → str_eq s s ≡ true
unfolding str_eq
str_eq_refl = eq_refl

-- strings.HasPrefix(s, t)
unfoldable pub has_prefix : String → String → Bool
has_prefix s t = starts_with s t

-- strings.HasSuffix(s, t)
unfoldable pub has_suffix : String → String → Bool
has_suffix s t = leb (len t) (len s) && text_eq (slice s (len s - len t) (len s)) t

-- strings.Contains(s, t): t begins somewhere in s
unfoldable pub contains : String → String → Bool
contains String.[] t = starts_with "" t
contains (String.◌∷◌ c s) t = starts_with (String.◌∷◌ c s) t || contains s t

pub contains_prefix : (s t : String) → has_prefix s t ≡ true → contains s t ≡ true
unfolding contains has_prefix
contains_prefix String.[] t h = h
contains_prefix (String.◌∷◌ c s) t h = ground (arith, h)

pub has_prefix_append : (s t : String) → has_prefix (s ++ t) s ≡ true
unfolding has_prefix
has_prefix_append = starts_with-append

cons_some : (c : Char) (s : String) → str_eq (String.◌∷◌ c s) "" ≡ false
cons_some c s = elim (Bool-cases (str_eq (String.◌∷◌ c s) "")) [
  | inl e ↦ absurd (cc ((str_eq_iff (String.◌∷◌ c s) "").0 e))
  | inr e ↦ e
]

-- A text that is not empty stays so when another is appended.
pub append_some : (s t : String) → str_eq s "" ≡ false → str_eq (s ++ t) "" ≡ false
append_some String.[] t h = absurd (cc (h, str_eq_refl ""))
append_some (String.◌∷◌ c s) t h = rw (append.cons c s t) (cons_some c (s ++ t))

-- strings.CutPrefix(s, t): what follows the prefix, and whether it was there
unfoldable pub cut_prefix : String → String → String × Bool
cut_prefix s t = if starts_with s t then (slice s (len t) (len s), true) else (s, false)

-- strings.TrimPrefix(s, t) and strings.TrimSuffix(s, t)
abbrev pub trim_prefix : String → String → String
trim_prefix s t = (cut_prefix s t).0

unfoldable pub trim_suffix : String → String → String
unfolding has_suffix
trim_suffix s t = if has_suffix s t then slice s 0 (len s - len t) else s

-- unicode.IsSpace
abbrev pub is_space : ℕ → Bool
is_space c =
    (leb 9 c && leb c 13)
    || c == 32
    || c == 0x85
    || c == 0xA0
    || c == 0x1680
    || (leb 0x2000 c && leb c 0x200A)
    || c == 0x2028
    || c == 0x2029
    || c == 0x202F
    || c == 0x205F
    || c == 0x3000

-- strings.TrimSpace(s) == ""
unfoldable pub is_blank : String → Bool
is_blank String.[] = true
is_blank (String.◌∷◌ c s) = is_space (code c) && is_blank s

-- strings.TrimSpace(s)
unfoldable pub trim_left : String → String
trim_left String.[] = ""
trim_left (String.◌∷◌ c s) =
    let rest = trim_left s in if is_space (code c) then rest else String.◌∷◌ c s

unfoldable pub trim_right : String → String
unfolding is_blank
trim_right String.[] = ""
trim_right (String.◌∷◌ c s) =
    let rest = trim_right s in if is_space (code c) && is_blank s then "" else String.◌∷◌ c rest

unfoldable pub trim_space : String → String
unfolding trim_left trim_right
trim_space s = trim_right (trim_left s)

-- len(strings.Split(s, ",")), less one
unfoldable pub commas : String → ℕ
commas String.[] = 0
commas (String.◌∷◌ c s) = if code c == b',' then 1 + commas s else commas s

-- The code points of a text.
abbrev pub codes : String → List ℕ
codes String.[] = []
codes (String.◌∷◌ c s) = code c ∷ codes s

-- One code point under strings.ToLower.
abbrev pub lower : ℕ → ℕ
lower c = if leb b'A' c && leb c b'Z' then c + 32 else c

-- strings.ToLower(s), as code points
abbrev pub to_lower : String → List ℕ
to_lower String.[] = []
to_lower (String.◌∷◌ c s) = lower (code c) ∷ to_lower s

abbrev pub codes_eq : List ℕ → List ℕ → Bool
codes_eq [] [] = true
codes_eq (x ∷ xs) (y ∷ ys) = x == y && codes_eq xs ys
codes_eq _ _ = false

-- strings.EqualFold(s, t)
unfoldable pub equal_fold : String → String → Bool
equal_fold s t = codes_eq (to_lower s) (to_lower t)
