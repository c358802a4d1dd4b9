-- ===== src/Sources/Aggregators.antt =====
-- infrastructure/source_authority/aggregator_blocklist.py
pub mod Domains
use hungrx_agent.Prelude.{ℕ, Bool, true, false, ◌||◌, List, [], ◌∷◌, ◌++◌, ◌==◌, if◌then◌else◌}
use hungrx_agent.Text.{Text, text, Unicode, is_member}

abbrev pub known_aggregator_domains : List Text
known_aggregator_domains =
    text "yelp.com"
    ∷ text "tripadvisor.com"
    ∷ text "opentable.com"
    ∷ text "zomato.com"
    ∷ text "foursquare.com"
    ∷ text "yellowpages.com"
    ∷ text "doordash.com"
    ∷ text "ubereats.com"
    ∷ text "grubhub.com"
    ∷ text "postmates.com"
    ∷ text "seamless.com"
    ∷ text "menufy.com"
    ∷ text "slicelife.com"
    ∷ text "chownow.com"
    ∷ text "toasttab.com"
    ∷ text "google.com"
    ∷ text "maps.google.com"
    ∷ text "bing.com"
    ∷ text "mapquest.com"
    ∷ text "facebook.com"
    ∷ text "instagram.com"
    ∷ text "twitter.com"
    ∷ text "x.com"
    ∷ text "linkedin.com"
    ∷ text "tiktok.com"
    ∷ text "linktr.ee"
    ∷ text "linktree.com"
    ∷ []

-- `domain.split(".")`: the first part and the others
unfoldable pub split_dots : Text → Text × List Text
split_dots [] = ([], [])
split_dots (c ∷ s) =
    let (part, parts) = split_dots s in if c == 46 then ([], part ∷ parts) else (c ∷ part, parts)

-- `".".join(parts)`
unfoldable pub join_dots : Text → List Text → Text
join_dots part [] = part
join_dots part (next ∷ parts) = part ++ (46 ∷ join_dots next parts)

-- The loop over `i` in `range(len(parts) - 1)`: the last part alone is not looked up.
unfoldable pub any_parent : List Text → Text → List Text → Bool
unfolding join_dots
any_parent known part [] = false
any_parent known part (next ∷ parts) =
    is_member (join_dots part (next ∷ parts)) known || any_parent known next parts

-- The loop, on a text
unfoldable pub has_known_parent : List Text → Text → Bool
unfolding split_dots any_parent
has_known_parent known domain = let (part, parts) = split_dots domain in any_parent known part parts

unfoldable pub is_known_aggregator : Unicode → Text → Bool
is_known_aggregator u domain = has_known_parent known_aggregator_domains (u.lower domain)
