-- ===== src/Elevator.antt =====
-- base/elevator.cc: the six ways to order the floors that were asked for. Floors and distances are
-- uint32_t, and the total distance wraps.
mod Rides
mod Seek
mod Sweep
mod Circular
pub mod Orders
mod Sorted
pub mod Ways
pub mod Tours
mod Asked
pub mod Scan
mod Tests
