-- ===== src/Crawler/Fetch/Targets.antt =====
-- infrastructure/crawler/http_fetcher.py: to which URLs a fetch opens a connection, and how much it reads.
use hungrx_agent.Prelude.{
  ℕ, zero, suc, ◌+◌, ◌≤◌, ◌≡◌, refl, inl, inr, Bool, true, false, Option, none, some, List, [], ◌∷◌,
  ◌++◌, arith, All, Bool-cases, Option-cases, length, length-append, ltb, if◌then◌else◌, ltb→ge,
}
use hungrx_agent.Text.{Text, text, Unicode}
use hungrx_agent.Crawler.Domains.{extract_domain, is_allowed}
use hungrx_agent.Crawler.Guard.{Network}
use hungrx_agent.Crawler.Fetch.{
  Web, Response, Got, response, transport_error, FetchError, Fetch, failed, Bytes, validate_target,
  after_validation, hop, fetch_rounds, robots_url, robots_allow, fetch_allowed, fetch_obeying,
  fetch, max_redirects, max_response_bytes, read_chunks, read_capped, exceeds_cap,
}

module _ (u : Unicode) (hostname : Text → Option Text) (net : Network) (web : Web)
    (verified : Text) where
  -- The check of a target lets the URL through.
  abbrev pub IsValidated : Text → Type 0
  IsValidated url = validate_target u hostname net web verified url ≡ none

  abbrev IsBounded : ℕ → List Text × Fetch → Type 0
  IsBounded n (urls, result) = All IsValidated urls × (length urls ≤ n)

  after_validation-IsBounded :
      (url : Text) (n : ℕ) (next : List Text × Fetch)
      → (IsValidated url → IsBounded n next)
      → IsBounded n (
          after_validation u hostname net web verified
            (validate_target u hostname net web verified url)
            next)
  after_validation-IsBounded url n next h =
      elim (Option-cases (validate_target u hostname net web verified url)) [
        | inl e ↦ rw e (h e)
        | inr (error, e) ↦ rw e (tt, omega arith)
      ]

  hop-IsBounded :
      (follow : Text → List Text × Fetch) (n : ℕ)
      → ((url : Text) → IsValidated url → IsBounded n (follow url))
      → (current : Text) (got : Got)
      → IsBounded n (hop u hostname net web verified follow current got)
  unfolding hop
  hop-IsBounded follow n h current transport_error = (tt, omega arith)
  hop-IsBounded follow n h current (response r) = elim (Option-cases r.location) [
    | inl e ↦ simp e (tt, n_bound n)
    | inr (location, e) ↦ simp e (
        after_validation-IsBounded (web.join current location) n
          (follow (web.join current location)) (h (web.join current location)))
  ]
    where
      n_bound : (n : ℕ) → length {A = Text} [] ≤ n
      n_bound n = omega arith

  fetch_rounds-IsBounded :
      (rounds : ℕ) (current : Text)
      → IsValidated current
      → IsBounded rounds (fetch_rounds u hostname net web verified rounds current)
  unfolding fetch_rounds
  fetch_rounds-IsBounded zero current v = (tt, omega arith)
  fetch_rounds-IsBounded (suc rounds) current v =
      let h =
        hop-IsBounded (fetch_rounds u hostname net web verified rounds) rounds
          (fetch_rounds-IsBounded rounds) current (web.get current) in
      ((v, h.0), omega (arith, h.1))

  allowed-IsBounded :
      (url : Text) (answer : Got)
      → IsValidated url
      → IsBounded 11 (fetch_allowed u hostname net web verified url answer)
  unfolding fetch_allowed
  allowed-IsBounded url answer v = by_robots (robots_allow u hostname net web verified answer url)
    where
      by_robots :
          (b : Bool)
          → IsBounded 11 (
              if b
              then fetch_rounds u hostname net web verified 11 url
              else ([], failed FetchError.robots_disallowed))
      by_robots true = fetch_rounds-IsBounded 11 url v
      by_robots false = (tt, omega arith)

  obeying-IsBounded :
      (robots : Option Got) (url : Text)
      → IsValidated (robots_url u hostname net web verified url)
      → IsValidated url
      → IsBounded 12 (fetch_obeying u hostname net web verified robots url)
  unfolding fetch_obeying
  obeying-IsBounded (some answer) url r v =
      let h = allowed-IsBounded url answer v in (h.0, omega (arith, h.1))
  obeying-IsBounded none url r v =
      let h = allowed-IsBounded url (web.get (robots_url u hostname net web verified url)) v in
      ((r, h.0), omega (arith, h.1))

  same_host :
      (url other : Text)
      → hostname other ≡ hostname url
      → extract_domain u hostname other ≡ extract_domain u hostname url
  unfolding extract_domain
  same_host url other h = rw (h, extract_domain) refl

  -- A URL of the same host passes the check if the other does.
  same_host-IsValidated :
      (url other : Text) → hostname other ≡ hostname url → IsValidated url → IsValidated other
  unfolding validate_target is_allowed
  same_host-IsValidated url other h v = rw (same_host url other h) v

  -- Where joining `/robots.txt` to the URL of a fetch keeps its host, every URL that the fetch sends a GET to,
  -- that of robots.txt and those of redirects included, lies in the verified domain and has passed the check
  -- of its host, and there are at most twelve.
  pub fetch-IsValidated :
      (respect_robots : Bool) (robots : Option Got) (url : Text)
      → hostname (web.join url (text "/robots.txt")) ≡ hostname url
      → let (urls, result) = fetch u hostname net web verified respect_robots robots url in
        All IsValidated urls × (length urls ≤ max_redirects + 2)
  unfolding fetch
  fetch-IsValidated respect_robots robots url keeps =
      after_validation-IsBounded url 12 _ (λ v. by_setting respect_robots v)
    where
      by_setting :
          (respect : Bool)
          → IsValidated url
          → IsBounded 12 (
              if respect
              then fetch_obeying u hostname net web verified robots url
              else fetch_rounds u hostname net web verified 11 url)
      by_setting true v =
          obeying-IsBounded robots url
            (same_host-IsValidated url (robots_url u hostname net web verified url) keeps v) v
      by_setting false v = let h = fetch_rounds-IsBounded 11 url v in (h.0, omega (arith, h.1))

read_chunks-le :
    (total : ℕ) (chunks : List Bytes) (bytes : Bytes)
    → total ≤ max_response_bytes
    → read_chunks total chunks ≡ some bytes
    → total + length bytes ≤ max_response_bytes
unfolding read_chunks
read_chunks-le total [] bytes h e = let empty : [] ≡ bytes = cc e in rw (← empty) (omega arith)
read_chunks-le total (chunk ∷ chunks) bytes h e =
    elim (Bool-cases (ltb max_response_bytes (total + length chunk))) [
      | inl over ↦ absurd (cc (rw over at e))
      | inr within ↦ elim (Option-cases (read_chunks (total + length chunk) chunks)) [
        | inl none_read ↦ absurd (cc (simp (within, none_read) at e))
        | inr (rest, read) ↦
            let same : chunk ++ rest ≡ bytes = cc (simp (within, read) at e) in
            rw (← same) (
              omega (
                arith,
                length-append chunk rest,
                read_chunks-le (total + length chunk) chunks rest
                    (ltb→ge max_response_bytes (total + length chunk) within) read,
              ))
      ]
    ]

-- The body that is read of a response is at most 25 MiB long, whatever length the response announces.
pub read_capped-le :
    (r : Response) (bytes : Bytes) → read_capped r ≡ some bytes → length bytes ≤ max_response_bytes
unfolding read_capped
read_capped-le r bytes e = elim (Bool-cases (exceeds_cap r.content_length)) [
  | inl over ↦ absurd (cc (rw over at e))
  | inr within ↦ omega (arith, read_chunks-le 0 r.chunks bytes (omega arith) (rw within at e))
]
