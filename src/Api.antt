-- ===== src/Api.antt =====
-- apps/api: the trip-run service behind the product API.
pub mod RunModels
pub mod RunService
