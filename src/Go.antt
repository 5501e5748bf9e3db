-- ===== src/Go.antt =====
-- The parts of Go that the operator's code rests on: errors, panics, calls that change the
-- cluster, and maps.
pub mod Outcome
pub mod Exec
pub mod GoMap
pub mod Pure
pub mod Strconv
pub mod Strings
