-- ===== src/Examples.antt =====
-- Concrete inputs: the numbers are decimal fractions of six places (Base/Scaled), in millionths.
pub mod Data
pub mod Routing
pub mod Flow
pub mod Stores
pub mod Audit
pub mod Selecting
pub mod Counting
pub mod Delivery
pub mod Serving
pub mod Working
pub mod Controls
