-- ===== src/Tests.antt =====
-- Concrete runs of the model, and each theorem that has hypotheses at an input that meets them.
pub mod Crates
pub mod Ancestors
pub mod Archives
pub mod Bat
pub mod Chains
pub mod Copies
pub mod Files
pub mod Headers
pub mod Locators
pub mod Logs
pub mod Merges
pub mod Payloads
pub mod Regions
pub mod Repairs
pub mod Streams
pub mod Whole
pub mod Writing
