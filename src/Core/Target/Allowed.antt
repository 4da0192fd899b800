-- ===== src/Core/Target/Allowed.antt =====
-- internal/core/target.go: which targets are accepted.
use load_observatory.Prelude.{
  if◌then◌else◌, ◌≡◌, ◌≢◌, refl, sym, ap, subst, Bool, true, false, not, ◌&&◌, ◌||◌, Bool-cases,
  Option-cases, ◌⊎◌, ◌↔◌, inl, inr, List, [], ◌∷◌, ◌++◌, Option, none, some, In, arith,
}
use load_observatory.Core.Target.{
  Text, Url, TargetError, ip_not_private, host_not_allowed, eqb, is_blank, ends_with, clean_suffix,
  host_of, host_allowed, http, https, validate_target,
}

pub eqb→eq : (s t : Text) → eqb s t ≡ true → s ≡ t
unfolding eqb
eqb→eq [] [] h = refl
eqb→eq (a ∷ s) (b ∷ t) h = ground (arith, eqb→eq s t)
eqb→eq _ _ h = cc

ends_with→append :
    (text suffix : Text)
    → ends_with text suffix ≡ true
    → (before : Text) × (text ≡ before ++ suffix)
unfolding ends_with
ends_with→append [] [] h = ([], refl)
ends_with→append [] (c ∷ suffix) h = cc
ends_with→append (c ∷ rest) suffix h = elim (Bool-cases (eqb (c ∷ rest) suffix)) [
  | inl whole ↦ ([], eqb→eq (c ∷ rest) suffix whole)
  | inr part ↦
      let (before, e) = ends_with→append rest suffix (rw part at h) in
      (c ∷ before, ap (λ t. c ∷ t) e)
]

-- A host under a configured suffix: the suffix itself, or labels, a dot and the suffix.
abbrev pub IsUnder : Text → List Text → Type 0
IsUnder host suffixes =
    (configured : Text) × In configured suffixes
    × (clean_suffix configured ≢ [])
    × ((host ≡ clean_suffix configured)
        ⊎ ((labels : Text) × (host ≡ labels ++ (46 ∷ clean_suffix configured))))

eqb_refl : (s : Text) → eqb s s ≡ true
unfolding eqb
eqb_refl [] = refl
eqb_refl (c ∷ rest) = rw (eqb_refl rest) (ground arith)

ends_with-append : (before suffix : Text) → ends_with (before ++ suffix) suffix ≡ true
unfolding ends_with
ends_with-append [] [] = refl
ends_with-append [] (c ∷ suffix) = rw (eqb_refl (c ∷ suffix)) refl
ends_with-append (c ∷ before) suffix = elim (Bool-cases (eqb (c ∷ (before ++ suffix)) suffix)) [
  | inl whole ↦ rw whole refl
  | inr part ↦ rw part (ends_with-append before suffix)
]

is_blank-false : (s : Text) → is_blank s ≡ false → s ≢ []
is_blank-false [] h e = cc
is_blank-false (c ∷ rest) h e = cc

not_blank : (s : Text) → s ≢ [] → is_blank s ≡ false
not_blank [] h = absurd (h refl)
not_blank (c ∷ rest) h = refl

-- One configured suffix's test.
abbrev matches : Text → Text → Bool
matches host suffix = not (is_blank suffix) && (eqb host suffix || ends_with host (46 ∷ suffix))

abbrev Matches : Text → Text → Type 0
Matches host suffix =
    (suffix ≢ []) × ((host ≡ suffix) ⊎ ((labels : Text) × (host ≡ labels ++ (46 ∷ suffix))))

matches→Matches : (host suffix : Text) → matches host suffix ≡ true → Matches host suffix
matches→Matches host suffix h = elim (Bool-cases (is_blank suffix)) [
  | inl blank ↦ absurd (let e = rw blank at h in cc)
  | inr there ↦ elim (Bool-cases (eqb host suffix)) [
    | inl same ↦ (is_blank-false suffix there, inl (eqb→eq host suffix same))
    | inr other ↦ (
      is_blank-false suffix there,
      inr (ends_with→append host (46 ∷ suffix) (rw (there, other) at h)),
    )
  ]
]

Matches→matches : (host suffix : Text) → Matches host suffix → matches host suffix ≡ true
Matches→matches host suffix (there, inl same) =
    let equal : eqb host suffix ≡ true = rw same (eqb_refl suffix) in
    rw (not_blank suffix there, equal) refl
Matches→matches host suffix (there, inr (labels, e)) =
    let ends : ends_with host (46 ∷ suffix) ≡ true = rw e (ends_with-append labels (46 ∷ suffix)) in
    elim (Bool-cases (eqb host suffix)) [
      | inl same ↦ rw (not_blank suffix there, same) refl
      | inr other ↦ rw (not_blank suffix there, other, ends) refl
    ]

host_allowed→IsUnder :
    (host : Text) (suffixes : List Text) → host_allowed host suffixes ≡ true → IsUnder host suffixes
unfolding host_allowed
host_allowed→IsUnder host [] h = cc
host_allowed→IsUnder host (configured ∷ rest) h =
    elim (Bool-cases (matches host (clean_suffix configured))) [
      | inl yes_here ↦
          let (full, place) = matches→Matches host (clean_suffix configured) yes_here in
          (configured, inl refl, full, place)
      | inr no_here ↦
          let (found, there, full, place) = host_allowed→IsUnder host rest (rw no_here at h) in
          (found, inr there, full, place)
    ]

IsUnder→host_allowed :
    (host : Text) (suffixes : List Text) → IsUnder host suffixes → host_allowed host suffixes ≡ true
unfolding host_allowed
IsUnder→host_allowed host [] (found, there, full, place) = absurd there
IsUnder→host_allowed host (configured ∷ rest) (found, inl e, full, place) =
    let here : matches host (clean_suffix configured) ≡ true =
      subst (λ c. matches host (clean_suffix c) ≡ true) e
        (Matches→matches host (clean_suffix found) (full, place)) in
    rw here refl
IsUnder→host_allowed host (configured ∷ rest) (found, inr there, full, place) =
    elim (Bool-cases (matches host (clean_suffix configured))) [
      | inl yes_here ↦ rw yes_here refl
      | inr no_here ↦ rw no_here (IsUnder→host_allowed host rest (found, there, full, place))
    ]

-- What an accepted target is.
abbrev pub IsAllowed : Option Url → (Text → Option Bool) → List Text → Type 0
IsAllowed parsed private_ip suffixes =
    (url : Url) × (parsed ≡ some url)
    × ((url.scheme ≡ http) ⊎ (url.scheme ≡ https))
    × (url.hostname ≢ [])
    × (url.credentials ≡ false)
    × ((private_ip (host_of url) ≡ some true)
        ⊎ ((private_ip (host_of url) ≡ none) × IsUnder (host_of url) suffixes))

abbrev after_scheme : (Text → Option Bool) → List Text → Text → Option TargetError
after_scheme private_ip suffixes host = elim (private_ip host) [
  | some true ↦ none
  | some false ↦ some ip_not_private
  | none ↦ if host_allowed host suffixes then none else some host_not_allowed
]

validate_target→IsAllowed :
    (parsed : Option Url) (private_ip : Text → Option Bool) (suffixes : List Text)
    → validate_target parsed private_ip suffixes ≡ none
    → IsAllowed parsed private_ip suffixes
unfolding validate_target host_of
validate_target→IsAllowed none private_ip suffixes h = cc
validate_target→IsAllowed (some url) private_ip suffixes h =
    elim (Bool-cases (is_blank url.scheme || is_blank url.hostname)) [
      | inl missing ↦ absurd (let e = rw missing at h in cc)
      | inr there ↦ elim (Bool-cases (not (eqb url.scheme http) && not (eqb url.scheme https))) [
        | inl other ↦ absurd (let e = rw (there, other) at h in cc)
        | inr web ↦ elim (Bool-cases url.credentials) [
          | inl shown ↦ absurd (let e = rw (there, web, shown) at h in cc)
          | inr clear ↦ (
            url,
            refl,
            web_scheme web,
            is_blank-false url.hostname (right_false there),
            clear,
            host clear (rw (there, web, clear) at h),
          )
        ]
      ]
    ]
  where
    web_scheme :
        (not (eqb url.scheme http) && not (eqb url.scheme https)) ≡ false
        → (url.scheme ≡ http) ⊎ (url.scheme ≡ https)
    web_scheme web = elim (Bool-cases (eqb url.scheme http)) [
      | inl plain ↦ inl (eqb→eq url.scheme http plain)
      | inr secure ↦ inr (eqb→eq url.scheme https (ground arith))
    ]

    right_false :
        (is_blank url.scheme || is_blank url.hostname) ≡ false → is_blank url.hostname ≡ false
    right_false e = ground arith

    host :
        url.credentials ≡ false
        → after_scheme private_ip suffixes (host_of url) ≡ none
        → (private_ip (host_of url) ≡ some true)
          ⊎ ((private_ip (host_of url) ≡ none) × IsUnder (host_of url) suffixes)
    host clear e = elim (Option-cases (private_ip (host_of url))) [
      | inr (true, ip) ↦ inl ip
      | inr (false, ip) ↦ absurd (let e' = rw (ip, after_scheme) at e in cc)
      | inl name ↦ elim (Bool-cases (host_allowed (host_of url) suffixes)) [
        | inl under ↦ inr (name, host_allowed→IsUnder (host_of url) suffixes under)
        | inr outside ↦ absurd (let e' = rw (name, outside, after_scheme) at e in cc)
      ]
    ]

IsAllowed→validate_target :
    (parsed : Option Url) (private_ip : Text → Option Bool) (suffixes : List Text)
    → IsAllowed parsed private_ip suffixes
    → validate_target parsed private_ip suffixes ≡ none
unfolding validate_target host_of
IsAllowed→validate_target parsed private_ip suffixes (url, e, scheme, named, clear, host) =
    rw e (rw (full scheme, not_blank url.hostname named, web scheme, clear) (last host))
  where
    full : (url.scheme ≡ http) ⊎ (url.scheme ≡ https) → is_blank url.scheme ≡ false
    full (inl plain) = rw plain refl
    full (inr secure) = rw secure refl

    web :
        (url.scheme ≡ http) ⊎ (url.scheme ≡ https)
        → (not (eqb url.scheme http) && not (eqb url.scheme https)) ≡ false
    web (inl plain) = rw (subst (λ t. eqb t http ≡ true) (sym plain) (eqb_refl http)) refl
    web (inr secure) =
        rw (subst (λ t. eqb t https ≡ true) (sym secure) (eqb_refl https)) (ground arith)

    last :
        (private_ip (host_of url) ≡ some true)
          ⊎ ((private_ip (host_of url) ≡ none) × IsUnder (host_of url) suffixes)
        → after_scheme private_ip suffixes (host_of url) ≡ none
    last (inl ip) = rw (ip, after_scheme) refl
    last (inr (name, under)) =
        rw (name, after_scheme) (rw (IsUnder→host_allowed (host_of url) suffixes under) refl)

-- For what net/url and net read of the texts: a target is accepted exactly if its URL parses, is of HTTP
-- or HTTPS with a host name and no credentials, and its host, in lower case and without a last dot, is a
-- private IP address, or no IP address and a configured suffix or labels, a dot and that suffix.
pub validate_target_iff :
    (parsed : Option Url) (private_ip : Text → Option Bool) (suffixes : List Text)
    → (validate_target parsed private_ip suffixes ≡ none) ↔ IsAllowed parsed private_ip suffixes
validate_target_iff parsed private_ip suffixes = (
  validate_target→IsAllowed parsed private_ip suffixes,
  IsAllowed→validate_target parsed private_ip suffixes,
)
