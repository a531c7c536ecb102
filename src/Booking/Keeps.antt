-- ===== src/Booking/Keeps.antt =====
-- Facts about the tables through the requests of internal/booking and its workers' transactions,
-- given that each statement keeps them.
pub mod Inventory
pub mod Lifecycle
pub mod Create
pub mod Update
pub mod Edit
pub mod Workers
