-- ===== src/Booking/Outcome.antt =====
-- The requests of internal/booking and what they leave when they succeed.
pub mod Cancel
pub mod Moves
pub mod Confirm
pub mod Change
pub mod Touch
pub mod Turns
pub mod Batch
pub mod Sale
pub mod Bulk
pub mod Holds
pub mod Envelope
pub mod Lost
pub mod Nested
