-- ===== src/Crawler/Fetch.antt =====
-- infrastructure/crawler/http_fetcher.py: `fetch` and `_read_capped`, with robots.py. The record `Web` is the
-- network: what a GET of a URL gives, with the chunks of its body; FlareSolverr; and the standard library's
-- parser of a robots.txt. Waiting for the domain's lock
-- changes no result and is left out; `transport_error` is a connection that fails before or in the answer.
pub mod Targets
pub mod Www
use hungrx_agent.Prelude.{
  ℕ, zero, suc, ◌+◌, ◌*◌, ◌==◌, ◌&&◌, ◌||◌, any, is_some, Bool, true, false, not, Option, none,
  some, List, [], ◌∷◌, ◌++◌, ltb, length, if◌then◌else◌,
}
use hungrx_agent.Text.{Text, text, Unicode, contains_text, text_eq}
use hungrx_agent.Review.Rows.{SnapshotContentType, html, pdf}
use hungrx_agent.Crawler.Domains.{extract_domain, is_allowed}
use hungrx_agent.Crawler.Guard.{Network, is_safe_host}

abbrev pub max_redirects : ℕ
max_redirects = 10

abbrev pub max_response_bytes : ℕ
max_response_bytes = 25 * 1024 * 1024

abbrev pub Bytes : Type 0
Bytes = List ℕ

-- A response; `location` is set where `has_redirect_location` is.
pub record Response : Type 0 where
  pub url : Text
  pub status_code : ℕ
  pub location : Option Text
  pub content_type : Option Text
  pub content_length : Option ℕ
  pub chunks : List Bytes
  pub server : Option Text
  pub cf_mitigated : Option Text

pub data Got : Type 0 where
  response : Response → Got
  transport_error : Got

-- FlareSolverr's JSON answer: its status, and the fields of its solution. A field that is missing is `none`,
-- as is a `response` that is no string.
pub record Solution : Type 0 where
  pub status : Text
  pub solved_html : Option Text
  pub solved_url : Option Text
  pub solved_status : Option ℕ

pub record FetchResult : Type 0 where
  pub url : Text
  pub content_type : SnapshotContentType
  pub content : Bytes
  pub http_status : ℕ

pub record Web : Type 0 where
  pub get : Text → Got
  pub join : Text → Text → Text
  -- `can_fetch` of the `RobotFileParser` that has parsed the response's text, for the fetcher's user agent
  pub can_fetch : Response → Text → Bool
  -- What FlareSolverr answers, none for an HTTPError or a ValueError; `none` if it is not configured
  pub flaresolverr : Option (Text → Option Solution)
  -- `str.encode("utf-8")`
  pub encode : Text → Bytes

pub data FetchError : Type 0 where
  domain_not_allowed domain_rejected_by_ssrf_guard robots_disallowed response_too_large : FetchError
  too_many_redirects transport_failed : FetchError

pub data Fetch : Type 0 where
  done : FetchResult → Fetch
  failed : FetchError → Fetch

abbrev pub cloudflare_body_markers : List Text
cloudflare_body_markers =
    text "cf-browser-verification"
    ∷ text "cf_chl_"
    ∷ text "Checking your browser before accessing"
    ∷ text "Attention Required! | Cloudflare"
    ∷ text "Just a moment..."
    ∷ []

abbrev pub names_cloudflare : Unicode → Option Text → Bool
names_cloudflare u none = false
names_cloudflare u (some server) = contains_text (u.lower server) (text "cloudflare")

-- `_looks_like_cloudflare_challenge`
unfoldable pub looks_like_cloudflare_challenge : Unicode → Response → Bytes → Bool
unfolding contains_text
looks_like_cloudflare_challenge u r body =
    ((r.status_code == 403) || (r.status_code == 503))
    && (names_cloudflare u r.server
        || (is_some r.cf_mitigated || any (contains_text body) cloudflare_body_markers))

abbrev pub given_or {ℓ} : {A : Type ℓ} → A → Option A → A
given_or default none = default
given_or default (some a) = a

-- `_classify_content_type`
unfoldable pub classify_content_type : Unicode → Option Text → SnapshotContentType
unfolding contains_text
classify_content_type u none = html
classify_content_type u (some header) =
    if contains_text (u.lower header) (text "pdf") then pdf else html

-- The chunks joined, none when there are more bytes than the cap
unfoldable pub read_chunks : ℕ → List Bytes → Option Bytes
read_chunks total [] = some []
read_chunks total (chunk ∷ chunks) =
    let rest = read_chunks (total + length chunk) chunks in
    if ltb max_response_bytes (total + length chunk)
    then none
    else elim rest [ none ↦ none | some bytes ↦ some (chunk ++ bytes) ]

abbrev pub exceeds_cap : Option ℕ → Bool
exceeds_cap none = false
exceeds_cap (some n) = ltb max_response_bytes n

unfoldable pub read_capped : Response → Option Bytes
unfolding read_chunks
read_capped r = if exceeds_cap r.content_length then none else read_chunks 0 r.chunks

module _ (u : Unicode) (hostname : Text → Option Text) (net : Network) (web : Web)
    (verified : Text) where
  abbrev pub is_safe_domain : Option Text → Bool
  is_safe_domain none = false
  is_safe_domain (some domain) = is_safe_host net domain

  -- `_validate_target`: the error that it raises
  unfoldable pub validate_target : Text → Option FetchError
  unfolding extract_domain is_allowed is_safe_host
  validate_target url =
      if not (is_allowed u hostname verified url)
      then some domain_not_allowed
      else if is_safe_domain (extract_domain u hostname url)
      then none
      else some domain_rejected_by_ssrf_guard

  abbrev pub or_failed : Fetch → Option FetchResult → Fetch
  or_failed otherwise none = otherwise
  or_failed otherwise (some solved) = done solved

  unfoldable pub solved_page : Text → Solution → Option FetchResult
  solved_page url solution = elim solution.solved_html [
    | none ↦ none
    | some page ↦
        if text_eq solution.status (text "ok")
        then some (record {
          url = given_or url solution.solved_url;
          content_type = html;
          content = web.encode page;
          http_status = given_or 200 solution.solved_status;
        })
        else none
  ]

  abbrev pub solution_page : Text → Option Solution → Option FetchResult
  solution_page url none = none
  solution_page url (some solution) = solved_page url solution

  -- `_fetch_via_flaresolverr`, none also where it is not configured
  unfoldable pub fetch_via_flaresolverr :
      Text → Option (Text → Option Solution) → Option FetchResult
  unfolding solved_page
  fetch_via_flaresolverr url none = none
  fetch_via_flaresolverr url (some flaresolverr) = solution_page url (flaresolverr url)

  unfoldable pub finish_body : Text → Response → Option Bytes → Fetch
  unfolding classify_content_type looks_like_cloudflare_challenge fetch_via_flaresolverr
  finish_body current r none = failed response_too_large
  finish_body current r (some content) =
      let direct = done (record {
        url = r.url;
        content_type = classify_content_type u r.content_type;
        content = content;
        http_status = r.status_code;
      }) in
      if looks_like_cloudflare_challenge u r content
      then or_failed direct (fetch_via_flaresolverr current web.flaresolverr)
      else direct

  abbrev pub after_validation : Option FetchError → List Text × Fetch → List Text × Fetch
  after_validation none next = next
  after_validation (some error) next = ([], failed error)

  abbrev pub opened : Text → List Text × Fetch → List Text × Fetch
  opened url (urls, result) = (url ∷ urls, result)

  -- A round of the loop, with `rounds` more to come: `follow` is the round after a redirect.
  unfoldable pub hop : (Text → List Text × Fetch) → Text → Got → List Text × Fetch
  unfolding validate_target finish_body read_capped
  hop follow current transport_error =
      ([], or_failed (failed transport_failed) (fetch_via_flaresolverr current web.flaresolverr))
  hop follow current (response r) = elim r.location [
    | none ↦ ([], finish_body current r (read_capped r))
    | some location ↦
        let next = web.join current location in
        after_validation (validate_target next) (follow next)
  ]

  -- `for _ in range(rounds)`
  unfoldable pub fetch_rounds : ℕ → Text → List Text × Fetch
  unfolding hop
  fetch_rounds zero current = ([], failed too_many_redirects)
  fetch_rounds (suc rounds) current =
      opened current (hop (fetch_rounds rounds) current (web.get current))

  -- `_robots_url`
  abbrev pub robots_url : Text → Text
  robots_url url = web.join url (text "/robots.txt")

  -- `RobotsChecker.is_allowed`: a robots.txt that is missing, redirected or out of reach allows every URL.
  unfoldable pub robots_allow : Got → Text → Bool
  robots_allow transport_error url = true
  robots_allow (response r) url =
      (not (ltb r.status_code 400) || (not (ltb r.status_code 300) && ltb r.status_code 400))
      || web.can_fetch r url

  unfoldable pub fetch_allowed : Text → Got → List Text × Fetch
  unfolding robots_allow fetch_rounds
  fetch_allowed url answer =
      if robots_allow answer url
      then fetch_rounds (max_redirects + 1) url
      else ([], failed robots_disallowed)

  -- A fetcher asks for robots.txt once: `robots` is the answer that it has got, if it has one.
  unfoldable pub fetch_obeying : Option Got → Text → List Text × Fetch
  unfolding fetch_allowed
  fetch_obeying (some answer) url = fetch_allowed url answer
  fetch_obeying none url = opened (robots_url url) (fetch_allowed url (web.get (robots_url url)))

  -- `fetch`: the URLs that a GET was sent to, in order, and what it returns or raises
  unfoldable pub fetch : Bool → Option Got → Text → List Text × Fetch
  unfolding fetch_obeying fetch_rounds
  fetch respect_robots robots url =
      after_validation (validate_target url)
        (if respect_robots then fetch_obeying robots url else fetch_rounds (max_redirects + 1) url)

  -- The answer that the fetcher has got for robots.txt after a fetch
  unfoldable pub robots_after : Bool → Option Got → Text → Option Got
  unfolding validate_target
  robots_after respect_robots (some answer) url = some answer
  robots_after respect_robots none url =
      if respect_robots && not (is_some (validate_target url))
      then some (web.get (robots_url url))
      else none
