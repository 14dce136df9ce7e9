-- ===== src/Domain.antt =====
-- packages/domain: the contracts that the components exchange, and the validators of plans.
pub mod Json
pub mod Messaging
pub mod Travel
pub mod TripRequest
pub mod Itinerary
pub mod Options
pub mod Review
pub mod Bundle
pub mod Validators
