-- ===== src/Extraction/Material.antt =====
-- `_read_text_materials` and `_build_user_content` of workflows/collector_workflow/nodes/multimodal_translation.py
-- and workflows/reviewer_workflow/nodes/targeted_reextraction.py. Reading a capture back from the storage as a
-- text is the argument `read_text`, none where it raises; `show_id` is `str` of a UUID.
use hungrx_agent.Prelude.{ℕ, zero, suc, Option, none, some, List, [], ◌∷◌, ◌++◌, if◌then◌else◌}
use hungrx_agent.Text.{Text, text}
use hungrx_agent.Schema.Menu.{Uuid}
use hungrx_agent.Review.Rows.{SourceSnapshot, Result, ok, raised, storage_failed, ◌>>=◌}
use hungrx_agent.Extraction.Capture.{is_html}

abbrev pub max_snapshot_chars : ℕ
max_snapshot_chars = 20000

-- `s[:n]`
unfoldable pub take : ℕ → Text → Text
take zero s = []
take (suc n) [] = []
take (suc n) (c ∷ s) = c ∷ take n s

abbrev pub text_or_raise : Option Text → Result Text
text_or_raise none = raised storage_failed
text_or_raise (some s) = ok s

module _ (read_text : Text → Option Text) where
  unfoldable pub read_text_materials : List SourceSnapshot → Result (List (SourceSnapshot × Text))
  read_text_materials [] = ok []
  read_text_materials (s ∷ rest) =
      let others = read_text_materials rest in
      let both = text_or_raise (read_text s.storage_path) >>= λ content.
      others >>= λ more. ok ((s, content) ∷ more) in
      if is_html s.content_type then both else others

module _ (show_id : Uuid → Text) where
  unfoldable pub section : SourceSnapshot × Text → Text
  unfolding take
  section (s, content) =
      text "[snapshot:" ++ (show_id s.id ++ (text "]\n" ++ take max_snapshot_chars content))

  -- `"\n\n---\n\n".join(sections)`
  unfoldable pub build_user_content : List (SourceSnapshot × Text) → Text
  unfolding section
  build_user_content [] = []
  build_user_content (m ∷ []) = section m
  build_user_content (m ∷ n ∷ rest) =
      section m ++ (text "\n\n---\n\n" ++ build_user_content (n ∷ rest))
