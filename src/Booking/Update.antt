-- ===== src/Booking/Update.antt =====
-- internal/booking/service_update.go: changes to the items of a reservation.
pub mod Change
pub mod Edit
