-- ===== src/Schema.antt =====
-- core/schemas: the restaurant tree and its field validators.
pub mod Nutrition
pub mod Menu
pub mod Restaurant
pub mod Fields
