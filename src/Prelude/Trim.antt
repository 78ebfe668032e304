-- ===== src/Prelude/Trim.antt =====
-- Texts as a user types them: trimming, whole numbers, and the length in UTF-16 units.
use Prim.Native.Nat.{ℕ, ◌+◌, ◌*◌, ◌-◌}
use Prim.Native.Char.{code}
use Prim.Native.String.{String}
use mathlib.Core.Path.{◌≡◌, refl}
use mathlib.Core.List.{List, [], ◌∷◌}
use mathlib.Core.Bool.{Bool, true, false, not, ◌&&◌, ◌||◌}
use text.Mathlib.Text.{◌==◌ as str_eq}
use native.Mathlib.Omega.{arith}
use mathlib.Core.Logic.{inl, inr}
use vellar_dapp.Prelude.Tests.{Bool-cases, ◌==◌, if◌then◌else◌, leb}

-- The white space and line ends of ECMAScript.
abbrev is_space : ℕ → Bool
is_space c =
    (leb 9 c && leb c 13)
    || c == 32
    || c == 0xa0
    || c == 0x1680
    || (leb 0x2000 c && leb c 0x200a)
    || c == 0x2028
    || c == 0x2029
    || c == 0x202f
    || c == 0x205f
    || c == 0x3000
    || c == 0xfeff

trim_start : String → String
trim_start String.[] = ""
trim_start (String.◌∷◌ c s) =
    let rest = trim_start s in if is_space (code c) then rest else String.◌∷◌ c s

trim_end : String → String
trim_end String.[] = ""
trim_end (String.◌∷◌ c s) =
    let rest = trim_end s in if is_space (code c) && str_eq rest "" then "" else String.◌∷◌ c rest

-- s.trim()
unfoldable pub trim : String → String
unfolding trim_start trim_end
trim s = trim_end (trim_start s)

trim_end-trim_end : (s : String) → trim_end (trim_end s) ≡ trim_end s
unfolding trim_end
trim_end-trim_end String.[] = refl
trim_end-trim_end (String.◌∷◌ c s) =
    let again = trim_end-trim_end s in
    elim (Bool-cases (is_space (code c) && str_eq (trim_end s) "")) [
      | inl h ↦ rw h
      | inr h ↦ rw (h, again, h)
    ]

-- A text that begins with no space.
trim_end-trim_start : (s : String) → trim_start (trim_end (trim_start s)) ≡ trim_end (trim_start s)
unfolding trim_end trim_start
trim_end-trim_start String.[] = refl
trim_end-trim_start (String.◌∷◌ c s) = elim (Bool-cases (is_space (code c))) [
  | inl h ↦ rw (h, trim_end-trim_start s)
  | inr h ↦ ground (arith, h)
]

pub trim-trim : (s : String) → trim (trim s) ≡ trim s
unfolding trim
trim-trim s = rw (trim_end-trim_start s, trim_end-trim_end (trim_start s))

trim_runs : trim " \ta b \n" ≡ "a b"
unfolding trim trim_start trim_end
trim_runs = refl

abbrev is_digit : ℕ → Bool
is_digit c = leb 48 c && leb c 57

all_digits : String → Bool
all_digits String.[] = true
all_digits (String.◌∷◌ c s) = is_digit (code c) && all_digits s

-- /^\d+$/.test(s)
unfoldable pub is_digits : String → Bool
unfolding all_digits
is_digits s = not (str_eq s "") && all_digits s

number_from : ℕ → String → ℕ
number_from n String.[] = n
number_from n (String.◌∷◌ c s) = number_from (n * 10 + (code c - 48)) s

-- BigInt(s), for a text of digits
unfoldable pub to_number : String → ℕ
unfolding number_from
to_number s = number_from 0 s

digits_run : (is_digits "0120" ≡ true) × (is_digits "" ≡ false) × (to_number "0120" ≡ 120)
unfolding is_digits all_digits to_number number_from
digits_run = (refl, refl, refl)

-- s.length
unfoldable pub utf16_length : String → ℕ
utf16_length String.[] = 0
utf16_length (String.◌∷◌ c s) = (if leb 0x10000 (code c) then 2 else 1) + utf16_length s

-- The code points of a text.
abbrev pub codes : String → List ℕ
codes String.[] = []
codes (String.◌∷◌ c s) = code c ∷ codes s
