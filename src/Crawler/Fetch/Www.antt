-- ===== src/Crawler/Fetch/Www.antt =====
-- infrastructure/crawler/http_fetcher.py, `_validate_target`: which host's addresses are checked.
use hungrx_agent.Prelude.{◌≡◌, refl, false, Option, none, some, List, ◌++◌, if◌then◌else◌}
use hungrx_agent.Text.{Text, text, Unicode, text_eq}
use hungrx_agent.Text.Words.{text_eq_iff}
use hungrx_agent.Crawler.Domains.{extract_domain, strip_www}
use hungrx_agent.Crawler.Guard.{Network, is_safe_host, resolves_safely, is_unsafe_address}
use hungrx_agent.Crawler.Fetch.{Web, validate_target}

-- The same network, but for the addresses of every host other than `domain`
abbrev pub readdressed : Network → Text → (Text → Option (List Text)) → Network
readdressed net domain addresses = record net {
  resolve = λ host. if text_eq host domain then net.resolve host else addresses host;
}

module _ (u : Unicode) (hostname : Text → Option Text) (net : Network) (web : Web)
    (verified : Text) where
  is_safe_host-readdressed :
      (domain : Text) (addresses : Text → Option (List Text))
      → is_safe_host (readdressed net domain addresses) domain ≡ is_safe_host net domain
  unfolding is_safe_host resolves_safely is_unsafe_address
  is_safe_host-readdressed domain addresses =
      rw ((text_eq_iff domain domain).1 refl) (by_resolution (net.resolve domain))
    where
      by_resolution :
          (o : Option (List Text))
          → (if is_unsafe_address (readdressed net domain addresses) domain
              then false
              else resolves_safely (readdressed net domain addresses) o)
            ≡ (if is_unsafe_address net domain then false else resolves_safely net o)
      by_resolution none = refl
      by_resolution (some found) = refl

  -- The check of a URL of the host `www.` and a domain asks for the addresses of the domain and not of the host
  -- that the connection is opened to: whatever addresses that host has, the check comes to the same.
  pub validate_target-www :
      (url domain : Text) (addresses : Text → Option (List Text))
      → hostname url ≡ some (text "www." ++ domain)
      → u.lower (text "www." ++ domain) ≡ text "www." ++ domain
      → validate_target u hostname (readdressed net domain addresses) web verified url
        ≡ validate_target u hostname net web verified url
  unfolding validate_target extract_domain strip_www
  validate_target-www url domain addresses host lower =
      let dom : extract_domain u hostname url ≡ some domain =
        rw (host, extract_domain) (rw lower refl) in
      rw dom (rw (is_safe_host-readdressed domain addresses) refl)
