-- ===== src/Extraction/Extractor.antt =====
-- What the nodes around an extraction take from outside: the prompt is that of
-- workflows/collector_workflow/nodes/multimodal_translation.py and of
-- workflows/reviewer_workflow/nodes/targeted_reextraction.py.
use hungrx_agent.Prelude.{Option}
use hungrx_agent.Text.{Text, text}
use hungrx_agent.Schema.Menu.{Uuid}
use hungrx_agent.Extraction.{AiProvider}
use hungrx_agent.Extraction.Capture.{PageFetcher}

abbrev pub system_prompt : Text
system_prompt =
    text
      "You extract restaurant menu and nutrition data from raw crawled website/PDF content. Only report information that is actually present in the provided material — never infer, guess, or fill in plausible-sounding values. Leave a field unset (null/empty) rather than fabricate it. For every dish and for the restaurant profile, report which source documents (by the [snapshot:<id>] markers in the material) the information came from, and a confidence score between 0 and 1 reflecting how clearly the material supports the extracted values."

-- What the extraction of a restaurant takes from outside
pub record Extractor : Type 0 where
  pub hostname : Text → Option Text
  pub pages : PageFetcher
  pub read_text : Text → Option Text
  pub show_id : Uuid → Text
  pub provider : AiProvider
