-- ===== src/Btype.antt =====
-- What the database relies on of github.com/tidwall/btype, as interfaces: `Map` and `Table` are
-- sorted sequences under their comparison, with the operations that the database calls. `Copy` and
-- `Release` keep the value and only count references, so a copy is the tree itself.
pub mod Sorted
pub mod Filtered
pub mod Distinct
pub mod Contract
pub mod Laws
pub mod Sequences
