-- ===== src/Tests/Fields.antt =====
-- The field validators of core/schemas on concrete values.
use hungrx_agent.Prelude.{◌≡◌, refl, some, [], ◌∷◌}
use hungrx_agent.Text.{text, strip}
use hungrx_agent.Text.Ascii.{ascii}
use hungrx_agent.Schema.Menu.{Allergen, milk, eggs}
use hungrx_agent.Schema.Fields.{name_field, is_declared, unique_allergens}
use hungrx_agent.Schema.Fields.Names.{IsNameField, name_field_lem}
use hungrx_agent.Schema.Fields.Unique.{IsUnique, unique_allergens_lem}

name_field_pie : name_field ascii (text " Pie ") ≡ some (text "Pie")
unfolding name_field strip
name_field_pie = refl

name_field_lem_example : IsNameField ascii (text " Pie ") (name_field ascii (text " Pie "))
name_field_lem_example = name_field_lem ascii (text " Pie ")

unique_allergens_lem_example :
    let value = milk ∷ eggs ∷ milk ∷ [] in
    IsUnique (unique_allergens value)
    × ((b : Allergen) → is_declared b (unique_allergens value) ≡ is_declared b value)
    × (IsUnique value → unique_allergens value ≡ value)
unique_allergens_lem_example = unique_allergens_lem (milk ∷ eggs ∷ milk ∷ [])
