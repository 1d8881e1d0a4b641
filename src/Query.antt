-- ===== src/Query.antt =====
-- The query service (`src/query`) and the tokens of its fuzzy search.
pub mod Limits
pub mod Bigram
pub mod Records
pub mod Service
mod Tests
