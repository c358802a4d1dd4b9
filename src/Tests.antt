-- ===== src/Tests.antt =====
-- Runs of the modelled code on concrete data, and each theorem with conditions at a concrete input.
pub mod Samples
pub mod Worlds
mod Validation
mod Fields
mod Review
mod Queue
mod Sources
mod RateLimit
mod Reviewer
mod Crawler
