-- ===== src/Gateway/Origin/Match.antt =====
-- What an origin has to be for a request to pass.
use tenodera.Prelude.{
  ◌≡◌, ◌⊎◌, inl, inr, refl, sym, ◌∙◌, ap, ℕ, ◌+◌, ltb, ◌&&◌, map, ==_iff, Bool-cases, if◌then◌else◌,
  Bool, true, false, not, none, some, [], ◌∷◌, ◌++◌, Text, codes, unwrap_or, arith, all, nat_eq,
  ◌==◌, Option-cases,
}
use tenodera.Std.Str.{
  strip_prefix, strip_prefix_sound, until, eq_ignore_ascii_case, to_ascii_lowercase, until_free,
}
use tenodera.Gateway.Origin.{
  strip_scheme, origin_matches_host, Request, Method, get, head, options, post, put, delete, patch,
  is_mutating, referer_origin, referred, check_origin, passes,
}

-- A scheme in front of a text.
abbrev pub with_scheme : Bool → Text → Text
with_scheme true h = codes "https://" ++ h
with_scheme false h = codes "http://" ++ h

strip_with_scheme : (secure : Bool) (h : Text) → strip_scheme (with_scheme secure h) ≡ h
unfolding strip_scheme strip_prefix
strip_with_scheme true h = refl
strip_with_scheme false h = refl

-- An origin that is a scheme, http or https, before a host without a slash matches a host exactly
-- if the two are equal up to the case of ASCII letters.
pub match_with_scheme :
    (secure : Bool) (h host : Text)
    → all (λ c. not (c == b'/')) h ≡ true
    → origin_matches_host (with_scheme secure h) host ≡ eq_ignore_ascii_case h host
unfolding origin_matches_host
match_with_scheme secure h host free =
    ap (λ t. eq_ignore_ascii_case (until b'/' t) host) (strip_with_scheme secure h)
    ∙ ap (λ t. eq_ignore_ascii_case t host) (until_free b'/' h free)

all-until : (c : ℕ) (s : Text) → all (λ d. not (d == c)) (until c s) ≡ true
unfolding until
all-until c [] = refl
all-until c (d ∷ s) = ground (arith, all-until c s)

referer_matches :
    (r host : Text) → origin_matches_host (referer_origin r) host ≡ origin_matches_host r host
unfolding origin_matches_host referer_origin
referer_matches r host =
    let cut = until b'/' (strip_scheme r) in
    ap (λ t. eq_ignore_ascii_case (until b'/' t) host) (strip_with_scheme false cut)
    ∙ ap (λ t. eq_ignore_ascii_case t host) (until_free b'/' cut (all-until b'/' (strip_scheme r)))

-- The methods that may change state.
abbrev pub IsUnsafe : Method → Type 0
IsUnsafe get = ⊥
IsUnsafe head = ⊥
IsUnsafe options = ⊥
IsUnsafe post = Unit
IsUnsafe put = Unit
IsUnsafe delete = Unit
IsUnsafe patch = Unit

abbrev pub lower : ℕ → ℕ
lower c = if ltb 64 c && ltb c 91 then c + 32 else c

-- A URL, with or without its scheme, up to the end of its host or any further: a host without a
-- slash that is the given one up to the case of ASCII letters.
abbrev pub IsAt : Text → Text → Type 0
IsAt host o =
    (scheme h rest : Text) × (o ≡ scheme ++ (h ++ rest))
    × ((scheme ≡ []) ⊎ ((scheme ≡ codes "https://") ⊎ (scheme ≡ codes "http://")))
    × ((rest ≡ []) ⊎ ((path : Text) × (rest ≡ b'/' ∷ path)))
    × (all (λ c. not (c == b'/')) h ≡ true)
    × (map lower h ≡ map lower host)

lower_lem : (c : ℕ) → to_ascii_lowercase c ≡ lower c
lower_lem c = ground arith

both : (a b : Bool) → (a && b) ≡ true → (a ≡ true) × (b ≡ true)
both true b h = (refl, h)
both false b h = absurd (cc)

eq_ignore_ascii_case_lem :
    (s t : Text) → eq_ignore_ascii_case s t ≡ true → map lower s ≡ map lower t
unfolding eq_ignore_ascii_case
eq_ignore_ascii_case_lem [] [] h = refl
eq_ignore_ascii_case_lem [] (d ∷ t) h = cc
eq_ignore_ascii_case_lem (c ∷ s) [] h = cc
eq_ignore_ascii_case_lem (c ∷ s) (d ∷ t) h =
    let (one, rest) = both (to_ascii_lowercase c == to_ascii_lowercase d) _ h in
    let head_eq = (==_iff (to_ascii_lowercase c) (to_ascii_lowercase d)).0 one in
    let tail_eq = eq_ignore_ascii_case_lem s t rest in
    let low : lower c ≡ lower d = sym (lower_lem c) ∙ head_eq ∙ lower_lem d in
    rw (low, tail_eq) refl

-- What `until` leaves.
until-rest :
    (c : ℕ) (s : Text)
    → (rest : Text) × (s ≡ until c s ++ rest) × ((rest ≡ []) ⊎ ((path : Text) × (rest ≡ c ∷ path)))
unfolding until
until-rest c [] = ([], refl, inl refl)
until-rest c (d ∷ s) = elim (Bool-cases (d == c)) [
  | inl here ↦
      let same = (==_iff d c).0 here in (d ∷ s, rw here refl, inr (s, ap (λ x. x ∷ s) same))
  | inr away ↦ let (rest, cut, end) = until-rest c s in (rest, rw away (ap (λ x. d ∷ x) cut), end)
]

strip_scheme_lem :
    (o : Text)
    → (scheme : Text) × (o ≡ scheme ++ strip_scheme o)
      × ((scheme ≡ []) ⊎ ((scheme ≡ codes "https://") ⊎ (scheme ≡ codes "http://")))
unfolding strip_scheme
strip_scheme_lem o = elim (Option-cases (strip_prefix (codes "https://") o)) [
  | inr (s, e) ↦
      (codes "https://", rw e (strip_prefix_sound (codes "https://") o s e), inr (inl refl))
  | inl n ↦ elim (Option-cases (strip_prefix (codes "http://") o)) [
    | inr (s, e) ↦
        (codes "http://", rw (n, e) (strip_prefix_sound (codes "http://") o s e), inr (inr refl))
    | inl m ↦ ([], rw (n, m) refl, inl refl)
  ]
]

origin_matches_host-IsAt : (o host : Text) → origin_matches_host o host ≡ true → IsAt host o
unfolding origin_matches_host
origin_matches_host-IsAt o host h =
    let (scheme, whole, known) = strip_scheme_lem o in
    let (rest, cut, end) = until-rest b'/' (strip_scheme o) in
    (
      scheme,
      until b'/' (strip_scheme o),
      rest,
      whole ∙ ap (λ t. scheme ++ t) cut,
      known,
      end,
      all-until b'/' (strip_scheme o),
      eq_ignore_ascii_case_lem (until b'/' (strip_scheme o)) host h,
    )

unsafe_mutates : (m : Method) → IsUnsafe m → is_mutating m ≡ true
unsafe_mutates post u = refl
unsafe_mutates put u = refl
unsafe_mutates delete u = refl
unsafe_mutates patch u = refl
unsafe_mutates get u = absurd u
unsafe_mutates head u = absurd u
unsafe_mutates options u = absurd u

-- A POST, PUT, DELETE or PATCH request that passes the check has an Origin header, or else a
-- Referer header, that is a URL, with http or https or no scheme, of the host that the Host header
-- names, up to the case of ASCII letters.
pub passes_sound :
    (r : Request)
    → IsUnsafe r.method
    → passes r ≡ true
    → (o : Text) × ((r.origin ≡ some o) ⊎ ((r.origin ≡ none) × (r.referer ≡ some o)))
      × IsAt (unwrap_or r.host []) o
unfolding passes referred check_origin
passes_sound r u p =
    let m = unsafe_mutates r.method u in
    elim (Option-cases r.origin) [
      | inr (o, e) ↦
          let ok : origin_matches_host o (unwrap_or r.host []) ≡ true = ground (arith, m, e) in
          (o, inl e, origin_matches_host-IsAt o (unwrap_or r.host []) ok)
      | inl e ↦ elim (Option-cases r.referer) [
        | inl f ↦ absurd (ground (arith, m, e, f))
        | inr (o, f) ↦
            let ok : origin_matches_host (referer_origin o) (unwrap_or r.host []) ≡ true =
              ground (arith, m, e, f) in
            let at = sym (referer_matches o (unwrap_or r.host [])) ∙ ok in
            (o, inr (e, f), origin_matches_host-IsAt o (unwrap_or r.host []) at)
      ]
    ]
