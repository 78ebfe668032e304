-- ===== src/Prelude/Text.antt =====
-- Texts: membership in a list of texts, and a number in decimal as a template literal prints it.
use Prim.Native.Nat.{ℕ, zero, suc, ◌+◌, ◌*◌, ◌/◌, ◌%◌, ◌-◌, ◌^◌}
use Prim.Native.Char.{code}
use Prim.Native.String.{String, ◌++◌, slice}
use mathlib.Core.Path.{◌≡◌, refl}
use mathlib.Core.Bool.{Bool, true, false, ◌||◌, ◌&&◌}
use mathlib.Core.List.{List, [], ◌∷◌}
use text.Mathlib.Text.{◌==◌ as str_eq, find?}
use vellar_dapp.Prelude.Tests.{◌==◌, if◌then◌else◌, ltb, leb, is_some}

-- [...].includes(s), set.has(s)
abbrev pub includes : List String → String → Bool
includes [] s = false
includes (x ∷ xs) s = str_eq x s || includes xs s

-- [...new Set(xs)]: first occurrences, in order; `seen` holds the members so far.
abbrev pub dedupe_from : List String → List String → List String
dedupe_from seen [] = []
dedupe_from seen (x ∷ xs) =
    let kept = x ∷ dedupe_from (x ∷ seen) xs in
    let rest = dedupe_from seen xs in if includes seen x then rest else kept

-- hay.includes(needle)
abbrev pub contains : String → String → Bool
contains hay needle = is_some (find? hay needle)

-- s.toLowerCase(), for the letters of ASCII
unfoldable pub to_lower : String → String
to_lower String.[] = ""
to_lower (String.◌∷◌ c s) =
    let n = code c in
    (if leb 65 n && leb n 90
      then slice "abcdefghijklmnopqrstuvwxyz" (n - 65) (n - 64)
      else String.◌∷◌ c "")
    ++ to_lower s

to_lower_runs : contains (to_lower "Policy Not Found: p1") "policy not found" ≡ true
unfolding to_lower
to_lower_runs = refl

digit : ℕ → String
digit zero = "0"
digit (suc zero) = "1"
digit (suc (suc zero)) = "2"
digit (suc (suc (suc zero))) = "3"
digit (suc (suc (suc (suc zero)))) = "4"
digit (suc (suc (suc (suc (suc zero))))) = "5"
digit (suc (suc (suc (suc (suc (suc zero)))))) = "6"
digit (suc (suc (suc (suc (suc (suc (suc zero))))))) = "7"
digit (suc (suc (suc (suc (suc (suc (suc (suc zero)))))))) = "8"
digit _ = "9"

-- The fuel is the number itself, which has fewer digits.
digits_of : ℕ → ℕ → String → String
digits_of zero n out = digit (n % 10) ++ out
digits_of (suc fuel) n out =
    let rest = digits_of fuel (n / 10) (digit (n % 10) ++ out) in
    if ltb n 10 then digit n ++ out else rest

unfoldable pub to_string : ℕ → String
unfolding digits_of digit
to_string n = digits_of n n ""

to_string_runs : to_string 1205 ≡ "1205"
unfolding to_string
to_string_runs = refl

-- Plain decimals: the digits after the point, of which seven count. A text that is no number gives 0.
fraction : ℕ → ℕ → String → ℕ
fraction k acc String.[] = acc * 10 ^ k
fraction zero acc (String.◌∷◌ c s) = acc
fraction (suc k) acc (String.◌∷◌ c s) =
    let n = code c in
    let rest = fraction k (acc * 10 + (n - 48)) s in if leb 48 n && leb n 57 then rest else 0

whole : ℕ → String → ℕ
unfolding fraction
whole acc String.[] = acc * 10 ^ 7
whole acc (String.◌∷◌ c s) =
    let n = code c in
    let digits = whole (acc * 10 + (n - 48)) s in
    let decimals = fraction 7 acc s in
    if n == 46 then decimals else if leb 48 n && leb n 57 then digits else 0

-- Number(text) * 10^7
unfoldable pub stroops : String → ℕ
unfolding whole
stroops text = whole 0 text

stroops_runs :
    (stroops "12.3456789" ≡ 123456789) × (stroops "0.0000000" ≡ 0) × (stroops "5" ≡ 50000000)
unfolding stroops whole fraction
stroops_runs = (refl, refl, refl)

all_digits : String → Bool
all_digits String.[] = true
all_digits (String.◌∷◌ c s) = (leb 48 (code c) && leb (code c) 57 || code c == 46) && all_digits s

some_nonzero : String → Bool
some_nonzero String.[] = false
some_nonzero (String.◌∷◌ c s) = (leb 49 (code c) && leb (code c) 57) || some_nonzero s

-- Number(text) > 0
unfoldable pub is_positive : String → Bool
unfolding all_digits some_nonzero
is_positive text = all_digits text && some_nonzero text

is_positive_runs : (is_positive "0.0000001" ≡ true) × (is_positive "0.00" ≡ false)
unfolding is_positive all_digits some_nonzero
is_positive_runs = (refl, refl)
