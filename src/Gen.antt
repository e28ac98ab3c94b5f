-- ===== src/Gen.antt =====
-- cmd/gen/main.go: the generator of the protocol catalog. A Go map is the list of its entries, a
-- JSON file is the value that it decodes to.
pub mod Classes
pub mod Reachable
pub mod Emit
mod Tests
