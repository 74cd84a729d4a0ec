-- ===== src/Tests.antt =====
-- Runs of the definitions on concrete data, one for each theorem that has hypotheses or arguments.
mod Stock
mod StockEntity
mod Order
mod Gateway
mod Processor
mod PaymentTimeout
mod Support
mod SupportUsers
mod GatewayEntry
mod Job
mod Activity
mod OrderApp
mod Risk
