-- ===== src/ServiceKit/Publisher.antt =====
-- packages/service-kit/src/publisher.ts: who a verified contract's source is attributed to. The
-- standard's URL parser, which gives a host and a path, and SHA-256 are arguments. Hosts and
-- paths of a parsed URL are ASCII, as `to_lower` is.
use Prim.Native.Char.{code}
use vellar_dapp.Prelude.{
  leb, ◌==◌, if◌then◌else◌, ℕ, String, ◌<>◌, ◌≡◌, refl, ap, Bool, true, false, ◌&&◌, ◌||◌, Option,
  none, some, List, [], ◌∷◌, str_eq, to_lower, trim, trim-trim,
}

abbrev is_lower : ℕ → Bool
is_lower c = leb 97 c && leb c 122

abbrev is_alphanumeric : ℕ → Bool
is_alphanumeric c = is_lower c || (leb 48 c && leb c 57)

abbrev starts_slashes : String → Bool
starts_slashes (String.◌∷◌ c (String.◌∷◌ d s)) = code c == 47 && code d == 47
starts_slashes s = false

-- What follows the first letter of a scheme, up to `://`; `:` is no letter of a scheme.
abbrev scheme_rest : String → Bool
scheme_rest String.[] = false
scheme_rest (String.◌∷◌ c s) =
    let n = code c in
    let rest = scheme_rest s in
    if n == 58
    then starts_slashes s
    else (is_alphanumeric n || (leb 65 n && leb n 90) || n == 43 || n == 46 || n == 45) && rest

-- /^[a-z][a-z0-9+.-]*:\/\//i
abbrev pub has_scheme : String → Bool
has_scheme String.[] = false
has_scheme (String.◌∷◌ c s) =
    (is_lower (code c) || (leb 65 (code c) && leb (code c) 90)) && scheme_rest s

-- path.split("/"), with the segment under way.
abbrev segments : String → String → List String
segments done String.[] = done ∷ []
segments done (String.◌∷◌ c s) =
    if code c == 47 then done ∷ segments "" s else segments (done <> String.◌∷◌ c "") s

-- .map(trim).filter(Boolean)[0]
abbrev first_nonempty : List String → Option String
first_nonempty [] = none
first_nonempty (s ∷ ss) =
    let rest = first_nonempty ss in if str_eq (trim s) "" then rest else some (trim s)

-- .replace(/\.git$/, "")
abbrev strip_git : String → String
strip_git String.[] = ""
strip_git (String.◌∷◌ c s) =
    let rest = strip_git s in if str_eq (String.◌∷◌ c s) ".git" then "" else String.◌∷◌ c rest

abbrev owner_codes : String → Bool
owner_codes String.[] = true
owner_codes (String.◌∷◌ c s) =
    let n = code c in (is_alphanumeric n || n == 46 || n == 95 || n == 45) && owner_codes s

-- /^[a-z0-9][a-z0-9._-]*$/
abbrev is_owner : String → Bool
is_owner String.[] = false
is_owner (String.◌∷◌ c s) = is_alphanumeric (code c) && owner_codes s

module _ (parse_url : String → Option (String × String)) where
  abbrev publisher_of : String × String → Option String
  publisher_of url =
      let host = to_lower url.0 in
      elim (first_nonempty (segments "" url.1)) [
        | none ↦ none
        | some owner ↦
            let cleaned = strip_git (to_lower owner) in
            if str_eq host ""
            then none
            else if is_owner cleaned
            then some (host <> "/" <> cleaned)
            else none
      ]

  abbrev canonical_of : String → Option String
  canonical_of trimmed =
      if str_eq trimmed ""
      then none
      else elim (parse_url (if has_scheme trimmed then trimmed else "https://" <> trimmed)) [
        | none ↦ none
        | some url ↦ publisher_of url
      ]

  unfoldable pub canonical_publisher : String → Option String
  canonical_publisher input = canonical_of (trim input)

  module _ (publisher_id_hex : String → String) where
    abbrev id_of : Option String → Option String
    id_of canonical = elim canonical [ none ↦ none | some text ↦ some (publisher_id_hex text) ]

    unfoldable pub publisher_id_for : String → Option String
    publisher_id_for input = id_of (canonical_publisher input)

    -- The blanks around a publisher's name make no difference.
    pub publisher_id_for-trim : (s : String) → publisher_id_for (trim s) ≡ publisher_id_for s
    unfolding publisher_id_for canonical_publisher
    publisher_id_for-trim s = ap (λ t. id_of (canonical_of t)) (trim-trim s)

abbrev example_url : String → Option (String × String)
example_url s =
    if str_eq s "https://github.com/Vellar-Wallet/vellar-dapp.git"
    then some ("github.com", "/Vellar-Wallet/vellar-dapp.git")
    else none

canonical_runs :
    canonical_publisher example_url " github.com/Vellar-Wallet/vellar-dapp.git"
    ≡ some "github.com/vellar-wallet"
unfolding canonical_publisher trim to_lower
canonical_runs = refl
