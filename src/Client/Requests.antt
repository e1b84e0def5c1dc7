-- ===== src/Client/Requests.antt =====
-- put.go, delete.go, get.go, query.go, scan.go and transaction.go: the requests that the client sends.
pub mod Items
pub mod KeyConditions
pub mod Queries
pub mod Transactions
pub mod Sends
pub mod Projections
pub mod Answers
