-- ===== src/Sources/Urls.antt =====
-- infrastructure/source_authority/url_normalizer.py and domain_validator.py. The functions of `urllib.parse`
-- are the record `Urls`; `ip_address` is that of the record `Network`. `urlparse` and
-- the port of what it has parsed are `none` where they raise a ValueError, which no function here catches.
use hungrx_agent.Prelude.{
  ℕ, ◌≡◌, refl, ◌⊎◌, inl, inr, Bool, ◌&&◌, ◌||◌, not, Option, none, some, List, [], ◌∷◌, ◌++◌, ◌==◌,
  is_empty, is_some, keep_if, if◌then◌else◌,
}
use hungrx_agent.Text.{Text, text, Unicode, text_eq, is_member, starts_with, contains_text, strip}
use hungrx_agent.Crawler.Domains.{extract_domain, domain_verifier, is_allowed}
use hungrx_agent.Crawler.Guard.{Network}
use hungrx_agent.Sources.Aggregators.{is_known_aggregator}

-- What `urlunparse` is given
pub record UrlParts : Type 0 where
  pub scheme : Text
  pub netloc : Text
  pub path : Text
  pub params : Text
  pub query : Text

pub record Urls : Type 0 where
  pub hostname : Text → Option Text
  -- `urlparse(url).port`, none for a ValueError
  pub port : Text → Option (Option ℕ)
  -- `urlparse(url)`, with the netloc as it stands, none for a ValueError
  pub parse : Text → Option UrlParts
  pub parse_qsl : Text → List (Text × Text)
  pub urlencode : List (Text × Text) → Text
  pub unparse : UrlParts → Text
  pub show_number : ℕ → Text

-- What a check of a URL comes to: a value, the check's own exception, or a ValueError that escapes
pub data Checked (A : Type 0) : Type 0 where
  valid : A → Checked A
  invalid broken : Checked A

pub Checked-cases :
    {A : Type 0} → (v : Checked A) → ((a : A) × (v ≡ valid a)) ⊎ ((v ≡ invalid) ⊎ (v ≡ broken))
Checked-cases (valid a) = inl (a, refl)
Checked-cases invalid = inr (inl refl)
Checked-cases broken = inr (inr refl)

abbrev pub tracking_params : List Text
tracking_params = text "gclid" ∷ text "fbclid" ∷ text "msclkid" ∷ []

unfoldable pub is_tracking : Unicode → Text → Bool
unfolding is_member starts_with
is_tracking u key = is_member key tracking_params || starts_with (u.lower key) (text "utm_")

-- `s.rstrip("/")`
unfoldable pub drop_slashes : Text → Text
drop_slashes [] = []
drop_slashes (c ∷ s) =
    let rest = drop_slashes s in if is_empty rest && c == 47 then [] else c ∷ rest

-- `s.strip("[]")`: the brackets at the ends
unfoldable pub drop_brackets : Text → Text
drop_brackets [] = []
drop_brackets (c ∷ s) = let rest = drop_brackets s in if c == 91 || c == 93 then rest else c ∷ s

unfoldable pub drop_end_brackets : Text → Text
drop_end_brackets [] = []
drop_end_brackets (c ∷ s) =
    let rest = drop_end_brackets s in if is_empty rest && (c == 91 || c == 93) then [] else c ∷ rest

-- ssrf_guard.py: `is_ip_literal_host`
unfoldable pub is_ip_literal_host : Network → Text → Bool
unfolding drop_brackets drop_end_brackets
is_ip_literal_host net host = is_some (net.ip_address (drop_end_brackets (drop_brackets host)))

module _ (u : Unicode) (net : Network) (urls : Urls) where
  -- `_strip_tracking_params`
  unfoldable pub strip_tracking_params : Text → Text
  unfolding is_tracking keep_if
  strip_tracking_params query =
      urls.urlencode (keep_if (λ (p : Text × Text). not (is_tracking u p.0)) (urls.parse_qsl query))

  abbrev pub default_port : Text → ℕ
  default_port scheme = if text_eq scheme (text "https") then 443 else 80

  abbrev pub netloc_of : Text → Text → Option ℕ → Text
  netloc_of scheme host none = host
  netloc_of scheme host (some port) =
      if port == default_port scheme then host else host ++ (58 ∷ urls.show_number port)

  -- `parsed.path or "/"` without its last slashes
  unfoldable pub path_of : Text → Text
  unfolding drop_slashes
  path_of [] = 47 ∷ []
  path_of (c ∷ s) = if text_eq (c ∷ s) (47 ∷ []) then c ∷ s else drop_slashes (c ∷ s)

  unfoldable pub normalize_port : UrlParts → Text → Option (Option ℕ) → Checked Text
  unfolding strip_tracking_params path_of
  normalize_port parts host none = broken
  normalize_port parts host (some port) = valid (
      urls.unparse (record parts {
        netloc = netloc_of parts.scheme host port;
        path = path_of parts.path;
        query = strip_tracking_params parts.query;
      }))

  unfoldable pub normalize_host : Text → UrlParts → Text → Checked Text
  unfolding is_ip_literal_host normalize_port
  normalize_host candidate parts host =
      if is_ip_literal_host net host
      then invalid
      else normalize_port parts host (urls.port candidate)

  unfoldable pub normalize_parsed : Text → Option UrlParts → Option Text → Checked Text
  unfolding normalize_host
  normalize_parsed candidate none host = broken
  normalize_parsed candidate (some parts) none = invalid
  normalize_parsed candidate (some parts) (some []) = invalid
  normalize_parsed candidate (some parts) (some (c ∷ host)) =
      if text_eq parts.scheme (text "http") || text_eq parts.scheme (text "https")
      then normalize_host candidate parts (u.lower (c ∷ host))
      else invalid

  abbrev pub with_scheme : Text → Text
  with_scheme candidate =
      if contains_text candidate (text "://") then candidate else text "https://" ++ candidate

  -- `normalize_url`, invalid for the InvalidUrlError
  unfoldable pub normalize_url : Text → Checked Text
  unfolding strip contains_text normalize_parsed
  normalize_url raw_url =
      if is_empty (strip u raw_url)
      then invalid
      else normalize_parsed (with_scheme (strip u raw_url))
          (urls.parse (with_scheme (strip u raw_url)))
          (urls.hostname (with_scheme (strip u raw_url)))

  -- The verifier of the domain must allow the URL. Its constructor may raise a ValueError.
  unfoldable pub check_verifier : Text → Text → Option Text → Checked (Text × Text)
  unfolding is_allowed
  check_verifier normalized domain none = broken
  check_verifier normalized domain (some verified) =
      if is_allowed u urls.hostname verified normalized then valid (normalized, domain) else invalid

  unfoldable pub check_domain : Text → Text → Checked (Text × Text)
  unfolding is_known_aggregator contains_text is_ip_literal_host domain_verifier check_verifier
  check_domain normalized domain =
      if is_known_aggregator u domain
        || (not (contains_text domain (text ".")) || is_ip_literal_host net domain)
      then invalid
      else check_verifier normalized domain (domain_verifier u urls.hostname domain)

  abbrev pub check_extracted : Text → Option Text → Checked (Text × Text)
  check_extracted normalized none = broken
  check_extracted normalized (some domain) = check_domain normalized domain

  abbrev pub check_normalized : Checked Text → Checked (Text × Text)
  check_normalized invalid = invalid
  check_normalized broken = broken
  check_normalized (valid normalized) =
      check_extracted normalized (extract_domain u urls.hostname normalized)

  -- `validate_official_domain`: the normalized URL and the verified domain, invalid for the DomainRejectedError
  unfoldable pub validate_official_domain : Text → Checked (Text × Text)
  unfolding normalize_url check_domain extract_domain
  validate_official_domain raw_url = check_normalized (normalize_url raw_url)
