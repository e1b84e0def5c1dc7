-- ===== src/Client/Pages.antt =====
-- query.go, scan.go, iter.go, collection.go: the loops that read pages until there are no more.
-- `ask limit start` is the response to the request with that Limit and ExclusiveStartKey; a limit
-- is 0 where the source's is not positive. Unmarshal goes through reflection and is a parameter.
pub mod Loops
pub mod Serves
pub mod Ends
pub mod Complete
pub mod Iterators
pub mod InMemory
