-- ===== src/Commands.antt =====
-- internal/application/commands.
pub mod Checkout
pub mod Purchase
mod Tests
