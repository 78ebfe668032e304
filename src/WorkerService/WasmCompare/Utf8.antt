-- ===== src/WorkerService/WasmCompare/Utf8.antt =====
-- `new TextDecoder("utf-8", { fatal: true }).decode(bytes)` of the web platform: a text as its code
-- points, `none` for the error on malformed bytes, and a byte order mark at the start left out.
use vellar_dapp.Prelude.{
  ltb, leb, ◌==◌, if◌then◌else◌, ℕ, ◌+◌, ◌*◌, ◌%◌, ◌≡◌, refl, Bool, true, ◌&&◌, Option, none, some,
  List, [], ◌∷◌, codes,
}

abbrev is_continuation : ℕ → Bool
is_continuation b = leb 0x80 b && leb b 0xbf

abbrev payload : ℕ → ℕ
payload b = b % 64

-- The second byte of three or four, whose range excludes overlong forms, surrogates and code points
-- past 0x10ffff.
abbrev is_second : ℕ → ℕ → Bool
is_second lead b =
    is_continuation b
    && (if lead == 0xe0
        then leb 0xa0 b
        else if lead == 0xed
        then leb b 0x9f
        else if lead == 0xf0
        then leb 0x90 b
        else if lead == 0xf4
        then leb b 0x8f
        else true)

abbrev prepend : ℕ → Option (List ℕ) → Option (List ℕ)
prepend c none = none
prepend c (some cs) = some (c ∷ cs)

-- The decoder, by the number of bytes of the code point that the first byte announces.
unfoldable pub code_points : List ℕ → Option (List ℕ)
code_points [] = some []
code_points (a ∷ []) = if ltb a 0x80 then some (a ∷ []) else none
code_points (a ∷ b ∷ []) =
    if ltb a 0x80
    then prepend a (code_points (b ∷ []))
    else if leb 0xc2 a && leb a 0xdf && is_continuation b
    then some ((a % 32 * 64 + payload b) ∷ [])
    else none
code_points (a ∷ b ∷ c ∷ []) =
    let one = prepend a (code_points (b ∷ c ∷ [])) in
    let two = prepend (a % 32 * 64 + payload b) (code_points (c ∷ [])) in
    if ltb a 0x80
    then one
    else if leb 0xc2 a && leb a 0xdf && is_continuation b
    then two
    else if leb 0xe0 a && leb a 0xef && is_second a b && is_continuation c
    then some ((a % 16 * 4096 + payload b * 64 + payload c) ∷ [])
    else none
code_points (a ∷ b ∷ c ∷ d ∷ rest) =
    let one = prepend a (code_points (b ∷ c ∷ d ∷ rest)) in
    let two = prepend (a % 32 * 64 + payload b) (code_points (c ∷ d ∷ rest)) in
    let three = prepend (a % 16 * 4096 + payload b * 64 + payload c) (code_points (d ∷ rest)) in
    let four =
      prepend (a % 8 * 262144 + payload b * 4096 + payload c * 64 + payload d) (code_points rest) in
    if ltb a 0x80
    then one
    else if leb 0xc2 a && leb a 0xdf && is_continuation b
    then two
    else if leb 0xe0 a && leb a 0xef && is_second a b && is_continuation c
    then three
    else if leb 0xf0 a && leb a 0xf4 && is_second a b && is_continuation c && is_continuation d
    then four
    else none

abbrev without_mark : List ℕ → List ℕ
without_mark [] = []
without_mark (c ∷ cs) = if c == 0xfeff then cs else c ∷ cs

unfoldable pub decode : List ℕ → Option (List ℕ)
unfolding code_points
decode bytes = elim (code_points bytes) [ none ↦ none | some cs ↦ some (without_mark cs) ]

decodes : decode (0x6d ∷ 0xc3 ∷ 0xa9 ∷ 0xe2 ∷ 0x82 ∷ 0xac ∷ []) ≡ some (codes "mé€")
unfolding decode code_points
decodes = refl

drops_mark : decode (0xef ∷ 0xbb ∷ 0xbf ∷ 0x61 ∷ []) ≡ some (codes "a")
unfolding decode code_points
drops_mark = refl

-- An overlong form is malformed.
refuses : decode (0xc0 ∷ 0x80 ∷ []) ≡ none
unfolding decode code_points
refuses = refl
