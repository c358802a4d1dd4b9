-- ===== src/Extraction/Capture.antt =====
-- `_capture_source_material` of workflows/collector_workflow/nodes/extraction.py and of
-- workflows/reviewer_workflow/nodes/targeted_reextraction.py. The record `PageFetcher` is the fetcher, with
-- BeautifulSoup's links of a page and `urljoin`. An exception is kept by its text.
use hungrx_agent.Prelude.{
  ℕ, Bool, true, false, ◌&&◌, Option, none, some, List, [], ◌∷◌, ◌++◌, is_empty, ltb, if◌then◌else◌,
}
use hungrx_agent.Text.{Text, text, Unicode, text_eq}
use hungrx_agent.Schema.Menu.{Uuid}
use hungrx_agent.Review.Rows.{Source, SourceSnapshot, SnapshotContentType}
use hungrx_agent.Crawler.Domains.{domain_verifier, is_allowed}
use hungrx_agent.Crawler.Links.{find_menu_page_links}
use hungrx_agent.Extraction.{Asked, answered, failed_with, ◌>>=◌}

-- `PageCapture`
pub record PageCapture : Type 0 where
  pub snapshot : SourceSnapshot
  pub page : Option Text

pub record PageFetcher : Type 0 where
  pub fetch_html_or_pdf : Uuid → Text → Asked PageCapture
  pub fetch_rendered_html : Uuid → Text → Asked PageCapture
  pub links : Text → List (Text × Text)
  pub join : Text → Text → Text
  -- `len(html.encode("utf-8"))`
  pub encoded_length : Text → ℕ

abbrev pub thin_html_bytes_threshold : ℕ
thin_html_bytes_threshold = 8000

abbrev pub is_html : SnapshotContentType → Bool
is_html SnapshotContentType.html = true
is_html _ = false

-- The verifier that a URL makes, or the ValueError's text
abbrev pub verifier_or_fail : Option Text → Asked Text
verifier_or_fail none = failed_with (text "URL has no hostname")
verifier_or_fail (some domain) = answered domain

module _ (u : Unicode) (hostname : Text → Option Text) (fetcher : PageFetcher) where
  -- Every candidate is fetched but the page that has been captured already.
  unfoldable pub capture_links : Uuid → Option Text → List Text → Asked (List SourceSnapshot)
  capture_links source_id skip [] = answered []
  capture_links source_id skip (url ∷ urls) =
      let rest = capture_links source_id skip urls in
      let fetched = fetcher.fetch_html_or_pdf source_id url >>= λ capture.
      rest >>= λ others. answered (capture.snapshot ∷ others) in
      elim skip [ none ↦ fetched | some captured ↦ if text_eq url captured then rest else fetched ]

  -- The links of a page that was captured as HTML
  unfoldable pub discover_links :
      Source → Text → PageCapture → Option Text → Asked (List SourceSnapshot)
  unfolding capture_links find_menu_page_links domain_verifier
  discover_links source base_url capture skip = elim capture.page [
    | none ↦ answered []
    | some page ↦
        if is_html capture.snapshot.content_type
        then (verifier_or_fail (domain_verifier u hostname source.url) >>= λ verified.
            capture_links source.id skip (
              find_menu_page_links u hostname (fetcher.join base_url) verified 10
                (fetcher.links page)))
        else answered []
  ]

  -- The rendered capture takes the place of the raw one where it has a page.
  abbrev pub prefer_rendered : PageCapture → PageCapture → PageCapture
  prefer_rendered raw rendered = elim rendered.page [
    | none ↦ raw
    | some page ↦ if is_empty page then raw else rendered
  ]

  unfoldable pub is_thin : PageCapture → Bool
  is_thin capture = elim capture.page [
    | none ↦ false
    | some page ↦
        is_html capture.snapshot.content_type
        && ltb (fetcher.encoded_length page) thin_html_bytes_threshold
  ]

  -- The root's captures, and the one whose links are followed
  unfoldable pub capture_root : Uuid → Text → Asked (List SourceSnapshot × PageCapture)
  unfolding is_thin
  capture_root source_id url = fetcher.fetch_html_or_pdf source_id url >>= λ root.
      if is_thin root
      then (fetcher.fetch_rendered_html source_id url >>= λ rendered.
          answered (root.snapshot ∷ rendered.snapshot ∷ [], prefer_rendered root rendered))
      else answered (root.snapshot ∷ [], root)

  -- A given nutrition page must lie in the source's domain.
  unfoldable pub capture_nutrition : Source → Option Text → Asked (List SourceSnapshot)
  unfolding domain_verifier is_allowed
  capture_nutrition source none = answered []
  capture_nutrition source (some url) =
      verifier_or_fail (domain_verifier u hostname source.url) >>= λ verified.
      if is_allowed u hostname verified url
      then (fetcher.fetch_html_or_pdf source.id url >>= λ capture. answered (capture.snapshot ∷ []))
      else failed_with (text "URL is outside the verified domain")

  -- The collector's capture
  unfoldable pub capture_source_material : Source → Text → Option Text → Asked (List SourceSnapshot)
  unfolding capture_root capture_nutrition discover_links
  capture_source_material source source_url nutrition_url =
      capture_root source.id source_url >>= λ root.
      capture_nutrition source nutrition_url >>= λ nutrition.
      discover_links source source_url root.1 nutrition_url >>= λ linked.
      answered (root.0 ++ (nutrition ++ linked))

  -- The reviewer's capture: the links are those of the rendered page only if the root is HTML.
  unfoldable pub recapture_source_material : Source → Asked (List SourceSnapshot)
  unfolding capture_root discover_links
  recapture_source_material source = capture_root source.id source.url >>= λ root.
      discover_links source source.url root.1 none >>= λ linked. answered (root.0 ++ linked)
