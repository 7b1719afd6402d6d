-- ===== src/Calendar.antt =====
-- Working-time arithmetic: src/sto/core/calendar/arithmetic.py. `Intervals` has the vocabulary of the
-- proofs, `Reference` the reference layer, `Compiled` the indexed layer and `Spans` the placement of
-- whole spans; the other children prove their properties.
pub mod Intervals
pub mod Reference
pub mod Compiled
pub mod Spans
pub mod Order
pub mod Consume
pub mod Reach
pub mod Earliest
pub mod Latest
pub mod Work
pub mod Locate
pub mod Next
pub mod Later
pub mod Earlier
pub mod Queries
pub mod Counting
pub mod Intersect
pub mod Compile
pub mod Normalise
