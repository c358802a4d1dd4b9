-- ===== src/Crawler/Links.antt =====
-- infrastructure/crawler/page_discovery.py. What BeautifulSoup finds in the page, the `href` and the text of each
-- link, is the argument `links`; `urljoin(base_url, …)` is the argument `join`.
use hungrx_agent.Prelude.{
  ℕ, Bool, ◌&&◌, ◌||◌, not, Option, List, [], ◌∷◌, ◌++◌, any, is_empty, length, leb, if◌then◌else◌,
}
use hungrx_agent.Text.{Text, text, Unicode, strip, contains_text, is_member}
use hungrx_agent.Crawler.Domains.{is_allowed}

abbrev pub menu_keywords : List Text
menu_keywords =
    text "menu"
    ∷ text "menus"
    ∷ text "food"
    ∷ text "dishes"
    ∷ text "order"
    ∷ text "nutrition"
    ∷ text "nutritional"
    ∷ text "allergen"
    ∷ text "allergens"
    ∷ text "calorie"
    ∷ text "calories"
    ∷ []

module _ (u : Unicode) (hostname : Text → Option Text) (join : Text → Text) where
  -- `_matches_keyword`
  unfoldable pub matches_keyword : Text → Bool
  unfolding contains_text
  matches_keyword s = any (contains_text (u.lower s)) menu_keywords

  -- The link is taken: it names a menu, lies in the verified domain, and is new.
  unfoldable pub is_candidate : Text → List Text → Text × Text → Bool
  unfolding matches_keyword is_allowed is_member
  is_candidate verified matches (href, link_text) =
      not (is_empty (strip u href))
      && ((matches_keyword href || matches_keyword link_text)
          && (is_allowed u hostname verified (join (strip u href))
              && not (is_member (join (strip u href)) matches)))

  -- The loop over the links. `matches` and `seen` have the same members.
  unfoldable pub collect_links : Text → ℕ → List Text → List (Text × Text) → List Text
  unfolding is_candidate
  collect_links verified limit matches [] = matches
  collect_links verified limit matches ((href, link_text) ∷ links) =
      let added = matches ++ (join (strip u href) ∷ []) in
      let more = collect_links verified limit added links in
      let skipped = collect_links verified limit matches links in
      if is_candidate verified matches (href, link_text)
      then (if leb limit (length added) then added else more)
      else skipped

  unfoldable pub find_menu_page_links : Text → ℕ → List (Text × Text) → List Text
  unfolding collect_links
  find_menu_page_links verified limit links = collect_links verified limit [] links
