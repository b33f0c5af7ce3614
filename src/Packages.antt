-- ===== src/Packages.antt =====
-- The classes of the packages.
pub mod Fields
pub mod Classes
pub mod Write
pub mod Read
pub mod ReadBack
pub mod RoundTrip
pub mod Rows
pub mod Permisions
pub mod Send
pub mod Clone
pub mod ObjectsRequest
