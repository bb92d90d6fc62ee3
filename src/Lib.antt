-- ===== src/Lib.antt =====
-- Verification of the flash sale service: users check items of a sale out, and purchase what they
-- checked out; an item is sold once, and a user and a sale have limits.
--
-- Parts of the program, and the files that model them (paths are from the repository's root):
--
-- - internal/domain: Domain.Sale, Domain.Item, Domain.Checkout, Domain.Limits (the entities and
--   their methods), Domain.PurchaseService (ValidatePurchase and CalculatePurchaseResult, with
--   proofs in Domain.PurchaseService.Validation and Outcome), Errors (the values of errors.go and
--   what Go code builds on them; Errors.Chain is about errors.Is).
-- - internal/application/ports: Ports, each interface as a record of its methods. The purchase use
--   case and the checkout command are written over any such record.
-- - internal/application/use_cases/purchase_use_case.go: UseCases.Purchase. ExecutePurchase is
--   execute_purchase, its retry loop retry_loop, attemptPurchase is attempt_purchase and the parts
--   of it from the transaction on (in_transaction, purchase_in_tx, purchase_items, record_purchase).
-- - internal/application/commands: Commands.Checkout and Commands.Purchase.
-- - internal/infrastructure/persistence/postgres: Postgres.Store has the tables, the open
--   transactions and the ways in which a statement can end; Postgres.Query the SQL statements of the
--   sale repository as functions of the tables; Postgres.SaleRepository and
--   Postgres.CheckoutRepository the methods. Postgres.Rules, Postgres.Pool and
--   Postgres.OwnTransaction say what statements can change, Postgres.Stock what sold items are.
--   Postgres.PurchaseRepository has the methods on the table purchases, which nothing calls;
--   Postgres.Migrations has RunMigrations, over what the SQL of a file does to the schema, and
--   Postgres.Migrations.Replay what is executed and recorded, and in which order.
-- - internal/infrastructure/http: Http.Response, Http.ErrorMapper, Http.SaleHandler,
--   Http.PurchaseHandler (the handlers of /purchase and /checkout), Http.Routes, and
--   Http.AdminHandler (HandleCreateSale), with Postgres.Stock.Stocked about new sales.
-- - internal/infrastructure/http/server/server.go, NewServer: Service joins the purchase use case
--   with the sale repository on PostgreSQL; the cache (redis_cache is one), the checkout repository and the clock are
--   any implementations on a part of the world of their own. Service.Purchase, Commit, Validate,
--   Attempt and Retry follow a purchase from an item to the retry loop; Service.Stock has the
--   theorems about the whole. Postgres.Sure and Service.Success follow a purchase that nothing goes
--   wrong with.
-- - internal/infrastructure/scheduler/sale_scheduler.go: Scheduler, createSaleIfNeeded over the
--   sale repository; Postgres.Stock.Create has what new sales and items do to the tables.
-- - internal/infrastructure/persistence/redis/cache.go and internal/infrastructure/bloom: Redis.Cache
--   has the methods, and redis_cache joins them to the port; Redis.Scripts the Lua scripts,
--   Redis.Keys the names of the keys, Redis.BloomFilter the filter. Redis.Limits and
--   Redis.Limits.Checks are about the atomic checks, Redis.Counters and Redis.Codes about what is
--   stored and read, Redis.Lock about clients that use the lock in any interleaving.
-- - internal/pkg/generator/code_generator.go: Generator, over what crypto/rand.Read answers; what the
--   checkout command, the admin handler and the scheduler generate stays a parameter of theirs.
--   Generator.Distinct is about which codes can be the same. Generator.Names has GenerateName of
--   item_generator.go.
--
-- Apart from these stands internal/pkg/bloom: Bloom, with Bloom.Membership.
--
-- How code is modelled. A method that returns (T, error) and changes state is a function from the
-- world to a result and the world after it (Effect.M); what was changed before an error stays
-- changed. Effect.Triple has pre- and postconditions of such functions, with a postcondition for
-- errors. time.Now and random bytes are parameters; the mapping of errors is visited in any order.
--
-- PostgreSQL. The environment chooses for each statement whether it is answered, fails, or is done
-- and its answer lost; nothing is assumed of its choices. A transaction works on a copy of the
-- tables and is aborted by an error. Transactions run one after the other, which is how a
-- serializable schedule is seen; conflicts of interleaved transactions show as failed statements.
--
-- Redis. The server is a parameter: Redis.Server.Redis has its commands, each of them one step, and
-- IsRedis what is documented of them, keys that expire left out. Redis.Client sends each command or
-- script as a request that is answered, fails, or is done and its answer lost, and sends it again
-- three times at most, as go-redis does; a pipeline is a sequence of requests. The numbers of Lua
-- are rounded, and exact up to 2 ^ 53. Redis.Memory is a server with these laws. Only Redis.Lock
-- lets a key expire.
--
-- Time. A time is an instant. Only Http.AdminHandler meets times with an offset: there a time has
-- its instant and the reading of its clock, which is what a TIMESTAMP column keeps.
--
-- Bounds. ExecutePurchase makes at most retryAttempts attempts, and retry_loop recurses on the
-- attempts that are left, so that no fuel is needed; all other loops recurse on lists. Go's int is
-- an integer without bound: counts are those of rows and far below 2 ^ 63. Instants and durations
-- are nanoseconds.
--
-- Not modelled: logging and metrics, which return nothing to the code; the limits of VARCHAR
-- columns; the text of JSON (a purchase result is read back as it was saved); the URLs
-- and ids of generated items, the scheduler's ticker, configuration, connections and the main function.
pub mod Prelude
pub mod Errors
pub mod Effect
pub mod Domain
pub mod Ports
pub mod UseCases
pub mod Postgres
pub mod Redis
pub mod Service
pub mod Commands
pub mod Http
pub mod Bloom
pub mod Scheduler
pub mod Generator
