-- ===== src/System.antt =====
-- The parts together: what holds of the database in every world that the program can reach.
pub mod Sound
pub mod UseCases
pub mod Closed
pub mod Front
pub mod Admins
pub mod Catalogue
pub mod Reach
pub mod SingleUse
pub mod Replay
pub mod Reviews
pub mod OneLink
pub mod Delivered
