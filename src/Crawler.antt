-- ===== src/Crawler.antt =====
-- infrastructure/crawler: which pages of a restaurant's site are fetched, and from which hosts.
pub mod Domains
pub mod Links
pub mod Guard
pub mod Fetch
