-- ===== src/Core/Target.antt =====
-- internal/core/target.go: ValidateTargetWithAllowedHostSuffixes. A text is its list of bytes, which are
-- ASCII; what net/url and net read of a text is a parameter.
pub mod Allowed
use load_observatory.Prelude.{
  ℕ, ◌+◌, leb, ◌==◌, if◌then◌else◌, Bool, true, false, ◌&&◌, ◌||◌, not, List, [], ◌∷◌, ◌++◌, Option,
  none, some, map,
}

abbrev pub Text : Type 0
Text = List ℕ

-- What ParseRequestURI gives: the scheme, the host name and whether there are credentials.
pub record Url : Type 0 where
  pub scheme : Text
  pub hostname : Text
  pub credentials : Bool

pub data TargetError : Type 0 where
  not_absolute not_http has_credentials ip_not_private host_not_allowed : TargetError

unfoldable pub eqb : Text → Text → Bool
eqb [] [] = true
eqb (a ∷ s) (b ∷ t) = a == b && eqb s t
eqb _ _ = false

abbrev pub is_blank : Text → Bool
is_blank [] = true
is_blank (c ∷ rest) = false

unfoldable pub to_lower : ℕ → ℕ
to_lower c = if leb 65 c && leb c 90 then c + 32 else c

-- Space, and the tab, line feed, vertical tab, form feed and carriage return.
unfoldable pub is_space : ℕ → Bool
is_space c = c == 32 || (leb 9 c && leb c 13)

-- The text without the bytes at its start that a test holds for.
unfoldable pub trim_left : (ℕ → Bool) → Text → Text
trim_left test [] = []
trim_left test (c ∷ rest) =
    let trimmed = trim_left test rest in if test c then trimmed else c ∷ rest

abbrev keep_before : Bool → ℕ → Text → Text
keep_before drop c (d ∷ rest) = c ∷ d ∷ rest
keep_before drop c [] = if drop then [] else c ∷ []

-- The same at its end.
unfoldable pub trim_right : (ℕ → Bool) → Text → Text
trim_right test [] = []
trim_right test (c ∷ rest) = keep_before (test c) c (trim_right test rest)

unfoldable pub trim : (ℕ → Bool) → Text → Text
trim test text = trim_right test (trim_left test text)

-- `strings.TrimSuffix(text, ".")`
unfoldable pub drop_last_dot : Text → Text
drop_last_dot [] = []
drop_last_dot (c ∷ []) = if c == 46 then [] else c ∷ []
drop_last_dot (c ∷ d ∷ rest) = c ∷ drop_last_dot (d ∷ rest)

unfoldable pub ends_with : Text → Text → Bool
ends_with [] suffix = is_blank suffix
ends_with (c ∷ rest) suffix = eqb (c ∷ rest) suffix || ends_with rest suffix

abbrev pub is_dot : ℕ → Bool
is_dot c = c == 46

-- A configured suffix as it is compared.
unfoldable pub clean_suffix : Text → Text
unfolding trim to_lower is_space
clean_suffix configured = trim is_dot (map to_lower (trim is_space configured))

unfoldable pub host_of : Url → Text
unfolding to_lower drop_last_dot
host_of url = drop_last_dot (map to_lower url.hostname)

-- The loop over the configured suffixes.
unfoldable pub host_allowed : Text → List Text → Bool
host_allowed host [] = false
host_allowed host (configured ∷ rest) =
    let suffix = clean_suffix configured in
    let more = host_allowed host rest in
    if not (is_blank suffix) && (eqb host suffix || ends_with host (46 ∷ suffix))
    then true
    else more

-- `http` and `https`
abbrev pub http : Text
http = 104 ∷ 116 ∷ 116 ∷ 112 ∷ []

abbrev pub https : Text
https = 104 ∷ 116 ∷ 116 ∷ 112 ∷ 115 ∷ []

-- The URL as parsed, whether an IP address that a text shows is private, and the suffixes.
unfoldable pub validate_target : Option Url → (Text → Option Bool) → List Text → Option TargetError
validate_target none private_ip suffixes = some not_absolute
validate_target (some url) private_ip suffixes =
    if is_blank url.scheme || is_blank url.hostname
    then some not_absolute
    else if not (eqb url.scheme http) && not (eqb url.scheme https)
    then some not_http
    else if url.credentials
    then some has_credentials
    else elim (private_ip (host_of url)) [
      | some true ↦ none
      | some false ↦ some ip_not_private
      | none ↦ if host_allowed (host_of url) suffixes then none else some host_not_allowed
    ]
