-- ===== src/Http.antt =====
-- crates/core/src/http: methods, status codes, requests, responses.
pub mod Method
pub mod Status
pub mod Request
pub mod Response
pub mod Date
pub mod Mime
pub mod Range
pub mod Conditional
