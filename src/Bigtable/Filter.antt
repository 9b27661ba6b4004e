-- ===== src/Bigtable/Filter.antt =====
-- pkg/bigtable/filter.go: row filters. `Message` has the filters as they come in a request,
-- `Leaves` the filters with no parts, `Evaluator` the evaluation tree with its state, `Engine` what
-- the handlers call; the other modules prove.
pub mod Message
pub mod Leaves
pub mod Evaluator
pub mod Engine
pub mod Counting
pub mod Reset
pub mod Ranges
pub mod Yield
