-- ===== src/Tests/Crawler.antt =====
-- Fetches of a site that redirects to itself once and then to an address of the local network.
use hungrx_agent.Prelude.{
  ◌≡◌, ◌≤◌, ◌+◌, refl, true, Option, none, some, [], ◌∷◌, All, length, if◌then◌else◌,
}
use hungrx_agent.Text.{Text, text, text_eq}
use hungrx_agent.Text.Ascii.{ascii}
use hungrx_agent.Crawler.Fetch.{Web, Response, response, validate_target, fetch, max_redirects}
use hungrx_agent.Crawler.Fetch.Targets.{IsValidated, fetch-IsValidated}
use hungrx_agent.Crawler.Fetch.Www.{readdressed, validate_target-www}
use hungrx_agent.Tests.Worlds.{net}

-- URLs are host names here.
abbrev hostname : Text → Option Text
hostname url = some url

abbrev redirect : Text → Response
redirect location = record {
  url = text "diner.example";
  status_code = 302;
  location = some location;
  content_type = none;
  content_length = none;
  chunks = [];
  server = none;
  cf_mitigated = none;
}

abbrev web : Web
web = record {
  get = λ url.
      if text_eq url (text "diner.example")
      then response (redirect (text "www.diner.example"))
      else response (redirect (text "10.0.0.1"));
  join = λ base location. if text_eq location (text "/robots.txt") then base else location;
  can_fetch = λ r url. true;
  flaresolverr = none;
  encode = λ page. page;
}

fetch-IsValidated_example :
    let (urls, result) =
      fetch ascii hostname net web (text "diner.example") true none (text "diner.example") in
    All (IsValidated ascii hostname net web (text "diner.example")) urls
    × (length urls ≤ max_redirects + 2)
unfolding text_eq
fetch-IsValidated_example =
    fetch-IsValidated ascii hostname net web (text "diner.example") true none (text "diner.example")
      refl

-- The host `www.diner.example` may have an address of the local network.
validate_target-www_example :
    validate_target ascii hostname
      (readdressed net (text "diner.example") (λ host. some (text "10.0.0.1" ∷ [])))
      web
      (text "diner.example")
      (text "www.diner.example")
    ≡ validate_target ascii hostname net web (text "diner.example") (text "www.diner.example")
validate_target-www_example =
    validate_target-www ascii hostname net web (text "diner.example") (text "www.diner.example")
      (text "diner.example") (λ host. some (text "10.0.0.1" ∷ [])) refl refl
