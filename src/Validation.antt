-- ===== src/Validation.antt =====
-- core/validation: the deterministic rules and the engine that runs them.
pub mod Result
pub mod SchemaCheck
pub mod RequiredFields
pub mod NutritionRules
pub mod PriceRules
pub mod ImpossibleValues
pub mod AllergenRules
pub mod Duplicates
pub mod Corrections
pub mod Engine
