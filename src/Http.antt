-- ===== src/Http.antt =====
-- internal/infrastructure/http: replies, the mapping of errors, the handlers and the routes.
pub mod Response
pub mod ErrorMapper
pub mod SaleHandler
pub mod Routes
pub mod PurchaseHandler
mod Tests
pub mod AdminHandler
