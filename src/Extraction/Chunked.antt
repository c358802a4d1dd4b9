-- ===== src/Extraction/Chunked.antt =====
-- infrastructure/ai/chunked_extraction.py. `asyncio.gather` gives the results in the order of the calls;
-- of several calls that fail, the model takes the first.
use hungrx_agent.Prelude.{ℕ, ◌+◌, Option, none, some, List, [], ◌∷◌, ◌++◌, if◌then◌else◌}
use hungrx_agent.Text.{Text, text, text_eq}
use hungrx_agent.Decimal.{Decimal, decimal, add}
use hungrx_agent.Extraction.{
  ExtractedMenuCategory, ExtractedMenu, ExtractionOutput, ExtractedMenuCategoryStub,
  ExtractedDiscovery, Answer, Asked, answered, AiProvider, ◌>>=◌,
}

abbrev pub discovery_instruction : Text
discovery_instruction =
    text
      "\n\nFirst, identify the restaurant profile and the menu structure only: for every menu, list its categories by name. Do NOT list individual dishes yet — dish-level detail is requested separately, one category at a time."

-- `_CATEGORY_INSTRUCTION_TEMPLATE.format(…)`
unfoldable pub category_instruction : ExtractedMenuCategoryStub → Text
category_instruction stub =
    text
      "\n\nFrom the same source material, extract every dish that belongs specifically to the menu category \""
    ++ (stub.category_name
        ++ (text "\" (part of \""
            ++ (stub.menu_name
                ++ text
                    "\"). Only report dishes actually listed under this category — do not include dishes from other categories.")))

-- `menus[name].append(category)`, a new menu last
unfoldable pub append_to_menu :
    Text → ExtractedMenuCategory → List ExtractedMenu → List ExtractedMenu
append_to_menu name category [] = record { name = name; categories = category ∷ [] } ∷ []
append_to_menu name category (menu ∷ menus) =
    let later = append_to_menu name category menus in
    if text_eq menu.name name
    then record menu { categories = menu.categories ++ (category ∷ []) } ∷ menus
    else menu ∷ later

-- The loop over `zip(discovery.categories, mapped_categories)`
unfoldable pub group_menus :
    List (Text × ExtractedMenuCategory) → List ExtractedMenu → List ExtractedMenu
unfolding append_to_menu
group_menus [] menus = menus
group_menus ((name, category) ∷ rest) menus = group_menus rest (append_to_menu name category menus)

-- The sum of the reported confidences and their number; none if a call reported none.
unfoldable pub sum_confidences : List (Option Decimal) → Option (Decimal × ℕ)
sum_confidences [] = some (decimal 0, 0)
sum_confidences (none ∷ rest) = none
sum_confidences (some c ∷ rest) = elim (sum_confidences rest) [
  | none ↦ none
  | some (total, n) ↦ some (add c total, n + 1)
]

-- `AIProviderResult[ExtractionOutput]`; the overall confidence is the quotient of the two numbers.
pub record ChunkedResult : Type 0 where
  pub output : ExtractionOutput
  pub model_name : Text
  pub overall_confidence : Option (Decimal × ℕ)

module _ (provider : AiProvider) (system_prompt user_content : Text) where
  -- `_extract_category`: the category under its menu's name, and the confidence
  unfoldable pub extract_category :
      ExtractedMenuCategoryStub → Asked ((Text × ExtractedMenuCategory) × Option Decimal)
  extract_category stub =
      provider.list_dishes (system_prompt ++ category_instruction stub) user_content >>= λ result.
      answered (
        (stub.menu_name, record { name = stub.category_name; dishes = result.output }),
        result.overall_confidence,
      )

  unfoldable pub extract_categories :
      List ExtractedMenuCategoryStub
      → Asked (List (Text × ExtractedMenuCategory) × List (Option Decimal))
  unfolding extract_category
  extract_categories [] = answered ([], [])
  extract_categories (stub ∷ stubs) = extract_category stub >>= λ first.
      extract_categories stubs >>= λ rest. answered (first.0 ∷ rest.0, first.1 ∷ rest.1)

  unfoldable pub assemble :
      Answer ExtractedDiscovery
      → List (Text × ExtractedMenuCategory) × List (Option Decimal)
      → ChunkedResult
  unfolding group_menus sum_confidences
  assemble discovery (categories, confidences) = record {
    output = record {
      restaurant_profile = discovery.output.restaurant_profile;
      menus = group_menus categories [];
    };
    model_name = discovery.model_name;
    overall_confidence = sum_confidences (discovery.overall_confidence ∷ confidences);
  }

  unfoldable pub run_chunked_extraction : Asked ChunkedResult
  unfolding extract_categories assemble
  run_chunked_extraction =
      provider.discover (system_prompt ++ discovery_instruction) user_content >>= λ discovery.
      extract_categories discovery.output.categories >>= λ categories.
      answered (assemble discovery categories)
