-- ===== src/Bigtable.antt =====
-- pkg/bigtable: the Bigtable v2 data model on top of a Pebble key space.
pub mod Encoding
pub mod Status
pub mod Mutate
pub mod Filter
pub mod ReadRows
pub mod ReadModifyWrite
pub mod CheckAndMutate
pub mod SampleKeys
pub mod Server
pub mod Session
