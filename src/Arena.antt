-- ===== src/Arena.antt =====
-- judge/arena: battles between two players, and single-elimination tournaments of them.
pub mod Seeding
pub mod Scoring
pub mod Outcome
pub mod Engine
pub mod Bracket
pub mod Access
pub mod Rating
pub mod Rules
