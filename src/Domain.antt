-- ===== src/Domain.antt =====
-- internal/domain: the entities and the rules of a purchase.
pub mod Sale
pub mod Item
pub mod Checkout
pub mod Limits
pub mod PurchaseService
mod Tests
