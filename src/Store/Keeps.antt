-- ===== src/Store/Keeps.antt =====
-- Facts about the tables, and what each statement of the store does to them: what it takes for a
-- statement to keep a fact, and two facts, on the rows of other properties and on the slots of the
-- ledger.
pub mod Interface
pub mod Isolation
pub mod NoDouble
