-- ===== src/Lib.antt =====
-- A model of seckill-go, a flash-sale system of Go services: requests come in at the gateway, go
-- through a queue to the processor, which takes stock, creates an order and answers by events; the
-- stock, order and support services keep the state.
--
-- Parts and files
--   Prelude: Boolean tests on the native numbers, the integers with Go's int64 wrap-around
--     (add64, sub64, mul64), Go's maps with text keys as association lists, strings.TrimSpace and
--     strings.Contains, decimal texts, sums over maps, time.Time.Sub, and a result type.
--   Stock.Entity: services/stock-service/internal/domain/entity/stock.go.
--   Stock.Memory: services/stock-service/internal/infrastructure/persistence/memory.go. A method
--     takes the store last and returns it; since each holds the mutex, concurrent calls are a list.
--   Stock.App: application/command.go and stock_service.go with the aggregate and the events, over
--     a repository and an event bus that are records of functions on a state (StockRepository, Bus);
--     Stock.App.Publishing fills the repository with Stock.Memory.
--   Stock.Writer: infrastructure/persistence/async_writer.go and memory_db.go.
--   Order.Entity: services/order-service/internal/domain/entity/order.go with the event log of
--     common/domain/aggregate_root.go. Order.Status: domain/status/order.go. Order.Store:
--     infrastructure/persistence/memory.go, which applies the transitions of Order.Status.
--   Gateway.Degrade: services/seckill-gateway/internal/server/degrade.go.
--   Gateway.Entry: services/seckill-gateway/internal/application/seckill.go, the admission checks;
--     Entry.Fast is the entry in front of the worker pool, Entry.Slow the one that asks the other
--     services itself, and Entry.Polling the query of a result by its trace id.
--   Gateway.Pool: internal/application/worker_pool.go of the gateway: the channel and the processing of
--     an event; Pool.Worker has the loop of a worker, and Start with its workers and the shutdown.
--   Order.App: services/order-service/internal/application/order_service.go and command.go over the
--     pointers of internal/infrastructure/persistence/memory_repository.go; Order.App.Refinement
--     has the same use cases over a map of values and relates the two.
--   Activity.Status: services/activity-service/internal/domain/status/activity.go.
--     Activity.Aggregate: domain/entity and domain/factory. Activity.Memory:
--     infrastructure/persistence/memory.go. Activity.Admin: application/admin/activity.go.
--   Job.Model and Job.Config: services/seckill-job/internal/domain and the options of
--     internal/application/job/job.go. Its jobs are Job.Activities (the status of the activities),
--     Job.Closing (orders nobody paid), Job.Reconcile (stock against orders), Job.Sync (orders
--     against payments), Job.Cleanup and Job.Cache.
--   Processor.Model and Processor.Submit: services/seckill-processor/internal/domain, the model
--     and SeckillService.Submit over its collaborators (Gateways), functions on a world.
--   Processor.Intake: application/usecase/submit_seckill.go and the handlers of
--     application/seckill.go, around Submit, with the keys of common/traceresult.
--   Processor.PaymentTimeout: application/usecase/payment_timeout.go. Errors: common/errors/rpc.go.
--   Risk.Evaluator: services/risk-service/internal/application/risk.
--   Support.Card, Support.Ledger, Support.Callback: services/support-service/internal,
--     domain/status/card.go, infrastructure/ledger/support_ledger.go, application/payment.go.
--   Support.Breaker: infrastructure/gateway/circuitbreaker.go of the same service.
--   Tests: the definitions run on concrete data.
--
-- Conventions: a function of the source has its name in snake case. A nil error is `none`; errors
-- are values of a data type. Times and durations are integers in nanoseconds; the clock is an
-- argument. A struct behind a pointer is passed in and returned, but for Order.App. Where a
-- function calls services that are not in its process, they are a record of functions on a world,
-- and a theorem about the calls reads a journal that is kept before the world. Loops go over lists.
-- The one bound is that of Prelude.Text's `decimal`, twenty digits, where an int64 has at most
-- nineteen.
--
-- Not modelled: the Redis and SQL stores (Lua scripts and queries), the queues, HTTP and gRPC
-- plumbing, configuration, metrics, logging and tracing, generated code. The stores of the risk
-- service, the gateway's PreCheck, the algorithms of its rate limiter and of its machine
-- challenges, the listings of the activity service, the tickers and goroutines of the job service,
-- its circuit breaker and the payment store of the support service are not modelled either; where
-- the modelled code calls them they are functions of the record of services. A turn of a worker of
-- the pool, with the whole processing of its event, is one step. Keys of Redis do not expire in
-- Processor.Intake. Purchases and quantities are int64 with wrap-around wherever the source adds or
-- subtracts them.
pub mod Prelude
pub mod Errors
pub mod Stock
pub mod Order
pub mod Activity
pub mod Gateway
pub mod Job
pub mod Processor
pub mod Risk
pub mod Support
pub mod Tests
