-- ===== src/Sources.antt =====
-- infrastructure/source_authority: which web site counts as a restaurant's own.
pub mod Aggregators
pub mod Results
pub mod Urls
pub mod Authority
