-- ===== src/Arena/Engine.antt =====
-- judge/arena/engine.py and judge/models/arena.py: a battle, which is a match and its games.
pub mod Rows
pub mod Play
pub mod Actions
pub mod Counting
pub mod Sound
pub mod Endings
pub mod Leaves
pub mod Games
pub mod Reachable
pub mod Lock
pub mod Over
pub mod Extended
pub mod Create
pub mod Created
mod Tests
mod CreateTests
