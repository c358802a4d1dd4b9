-- ===== src/Crawler/Domains.antt =====
-- infrastructure/crawler/domain_lock.py: `extract_domain` and `DomainVerifier`. `urlparse(url).hostname` is the
-- argument `hostname`, none where it is None.
use hungrx_agent.Prelude.{Bool, false, Option, none, some, [], ◌∷◌, ◌++◌, if◌then◌else◌}
use hungrx_agent.Text.{Text, text, Unicode, text_eq, starts_with, contains_text}

-- `s[4:]`
abbrev pub drop_four : Text → Text
drop_four (a ∷ b ∷ c ∷ d ∷ rest) = rest
drop_four _ = []

unfoldable pub strip_www : Text → Text
unfolding starts_with
strip_www host = if starts_with host (text "www.") then drop_four host else host

module _ (u : Unicode) (hostname : Text → Option Text) where
  -- `extract_domain`, none for the ValueError
  unfoldable pub extract_domain : Text → Option Text
  unfolding strip_www
  extract_domain url = elim (hostname url) [
    | none ↦ none
    | some host ↦ some (strip_www (u.lower host))
  ]

  -- `DomainVerifier(verified_domain)`: its domain, none if the constructor raises
  unfoldable pub domain_verifier : Text → Option Text
  unfolding extract_domain contains_text
  domain_verifier verified_domain = extract_domain (
      if contains_text verified_domain (text "://")
      then verified_domain
      else text "https://" ++ verified_domain)

  abbrev pub is_domain : Text → Option Text → Bool
  is_domain verified none = false
  is_domain verified (some domain) = text_eq domain verified

  -- `is_allowed` of the verifier of the domain `verified`
  unfoldable pub is_allowed : Text → Text → Bool
  unfolding extract_domain
  is_allowed verified url = is_domain verified (extract_domain url)
