-- ===== src/Config.antt =====
-- app: the configuration of the programs, and what they do with it when they start.
pub mod Controller
pub mod Agent
pub mod Keys
