-- ===== src/Chess.antt =====
-- The chess system of "Systems Programming c,c++ & python/Project C -chessSystem and Map": players,
-- games, tournaments, and the operations of `chessSystem.c`, over the map of `mtm_map/map.c`.
pub mod Types
pub mod Location
pub mod Games
pub mod Score
pub mod GameId
pub mod Valid
pub mod Cards
pub mod AddTournament
pub mod AddGame
pub mod RemoveTournament
pub mod RemovePlayer
pub mod EndTournament
pub mod Statistics
pub mod Levels
pub mod PlayTime
mod Sample
mod Runs
mod Tests
