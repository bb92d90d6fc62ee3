-- ===== src/Postgres.antt =====
-- internal/infrastructure/persistence/postgres, over the schema of migrations.
pub mod Pool
pub mod OwnTransaction
pub mod CheckoutRepository
pub mod Store
pub mod Query
pub mod SaleRepository
pub mod Stock
pub mod Rules
pub mod PurchaseRepository
pub mod Migrations
pub mod Sure
