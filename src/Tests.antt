-- ===== src/Tests.antt =====
-- Concrete runs of the development: each theorem at an input that meets its hypotheses.
pub mod Fixtures
pub mod Tokens
pub mod Timers
pub mod Polling
pub mod Wrappers
pub mod Loops
pub mod Descriptors
mod Executors
mod Pings
pub mod Signalling
mod Numbers
mod Stopping
mod Lives
mod Adapters
