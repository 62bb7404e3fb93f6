-- ===== src/Console.antt =====
-- The VT100 engine of the console server, openblt/srv/console2.
mod Tests
pub mod Screen
pub mod Engine
