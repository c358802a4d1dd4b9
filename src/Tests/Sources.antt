-- ===== src/Tests/Sources.antt =====
-- The blocklist of aggregators on concrete domains, and a search for a website.
use hungrx_agent.Prelude.{Option, none, some, List, [], ◌∷◌, keep_if}
use hungrx_agent.Text.{
  Text, text, strip, drop_spaces, drop_trailing, contains_text, starts_with, text_eq, is_member,
}
use hungrx_agent.Decimal.{less}
use hungrx_agent.Crawler.Domains.{extract_domain, strip_www, domain_verifier, is_allowed}
use hungrx_agent.Sources.Results.{EntityCandidate, SourceAuthorityResult}
use hungrx_agent.Review.Rows.{Database, Result, ok, raised}
use hungrx_agent.Sources.Urls.{
  validate_official_domain, normalize_url, normalize_parsed, normalize_host, normalize_port,
  check_verifier, strip_tracking_params, path_of, is_ip_literal_host, drop_brackets,
  drop_end_brackets, check_domain, is_tracking,
}
use hungrx_agent.Sources.Authority.{
  resolve_official_website, rank, insert_ranked, try_candidates, finalize, confidence_level,
  create_source,
}
use hungrx_agent.Tests.Worlds.{net, urls, empty}
use hungrx_agent.Prelude.{◌≡◌, refl, true, false, ◌↔◌}
use hungrx_agent.Text.Ascii.{ascii}
use hungrx_agent.Sources.Aggregators.{
  known_aggregator_domains, has_known_parent, any_parent, split_dots, join_dots,
  is_known_aggregator,
}
use hungrx_agent.Sources.Aggregators.Domains.{IsUnderKnown, is_known_aggregator_iff}

subdomain_is_known : is_known_aggregator ascii (text "Order.DoorDash.com") ≡ true
unfolding is_known_aggregator has_known_parent is_member
subdomain_is_known = refl

suffix_is_not_known : is_known_aggregator ascii (text "notx.com") ≡ false
unfolding is_known_aggregator has_known_parent is_member
suffix_is_not_known = refl

is_known_aggregator_iff_example :
    (is_known_aggregator ascii (text "Order.DoorDash.com") ≡ true)
    ↔ IsUnderKnown known_aggregator_domains (ascii.lower (text "Order.DoorDash.com"))
is_known_aggregator_iff_example = is_known_aggregator_iff ascii (text "Order.DoorDash.com")

-- An aggregator with the most confidence, and a site of the restaurant's own
abbrev candidates : List EntityCandidate
candidates =
    record {
      url = text "https://diner.example";
      provider_confidence = record { coefficient = 8; exponent = 1 };
    }
    ∷ record {
      url = text "https://yelp.com";
      provider_confidence = record { coefficient = 9; exponent = 1 };
    }
    ∷ []

abbrev resolved_url_of : {J : Type 0} → Result (SourceAuthorityResult × Database J) → Option Text
resolved_url_of (ok (result, db)) = result.resolved_url
resolved_url_of (raised e) = none

-- The restaurant's own site is taken.
takes_diner :
    resolved_url_of (resolve_official_website ascii net urls 1 candidates empty)
    ≡ some (text "https://diner.example")
unfolding resolve_official_website rank insert_ranked less try_candidates finalize confidence_level
    create_source validate_official_domain normalize_url normalize_parsed normalize_host
    normalize_port check_verifier strip_tracking_params path_of is_ip_literal_host drop_brackets
    drop_end_brackets strip drop_spaces drop_trailing contains_text starts_with text_eq check_domain
    is_known_aggregator has_known_parent any_parent split_dots join_dots is_member extract_domain
    strip_www domain_verifier is_allowed is_tracking keep_if
takes_diner = refl
