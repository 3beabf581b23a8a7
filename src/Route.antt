-- ===== src/Route.antt =====
-- internal/tunnelroute: the routes (agents) that are connected, and the choice of one for a request.
pub mod Direct
pub mod Tracker
pub mod Roster
