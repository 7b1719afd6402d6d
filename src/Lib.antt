-- ===== src/Lib.antt =====
-- The scheduling engine of the STO scheduler: working-time arithmetic over calendars, the activity
-- network with its validation, the forward and the backward pass of the critical path method with
-- reported progress, and the floats between them.
--
-- The parts, and how they meet. A calendar is a list of half-open intervals of working time
-- (`sto/core/calendar/arithmetic.py`). It has two layers: a reference layer that scans the intervals,
-- and an indexed layer that bisects prefix sums. The engine (`sto/core/engine`) places activities on
-- calendars. `Network.validate` refuses a malformed network by code, `_topological_order` orders it,
-- and `forward_pass` goes through the order once: `_bounds` carries the dates of the predecessors
-- across their lags, the constraint of the activity is read, `_place` asks the calendar for a span
-- within the bounds, and `_driver` names the relationship that decided it. Reported work keeps its
-- actual dates, and `progress.py` says where its remaining work may begin. `backward_pass` goes through
-- the order from its end: `_bounds` carries the successors' late dates back across the lags with
-- `unshift_lag`, and `_place` asks for the latest span. `float_analysis` measures the slack between the
-- two passes and names the critical activities.
--
-- Files and code (paths below `src/`):
--   Calendar/Intervals    the intervals, and the words of the proofs on them
--   Calendar/Reference    sto/core/calendar/arithmetic.py: intersect_intervals to productive_segments
--   Calendar/Compiled     the same file: normalise, CompiledIntervals and the queries on it
--   Calendar/Spans        the same file: earliest_span and latest_span
--   Calendar/Compile      sto/core/calendar/compile.py: _validate_intervals
--   Engine/Outcome        the refusals (NetworkError, ProgressError) by code and row
--   Engine/Model          sto/core/engine/network.py: the rows; sto/core/model/enums.py
--   Engine/Validate       network.py: Network.validate
--   Engine/Lag            network.py: lag_calendar_for, shift_lag, unshift_lag
--   Engine/Progress       sto/core/engine/progress.py
--   Engine/Topology       sto/core/engine/forward.py: _topological_order
--   Engine/Place          forward.py: ActivityTimes, _bounds, _calendar_floor
--   Engine/Placement      forward.py: _place and _driver
--   Engine/Reporting      forward.py: _place_reported
--   Engine/Untouched      forward.py: the part of the loop for work that has not started
--   Engine/Forward        forward.py: forward_pass
--   Engine/Results        forward.py: the queries of ForwardPass
--   Engine/Late           sto/core/engine/backward.py: ActivityLateTimes and _bounds
--   Engine/Late/Placement backward.py: _place, _driver and the constraints of the loop
--   Engine/Backward       backward.py: backward_pass
--   Engine/Float          sto/core/engine/criticality.py: signed_working, span_float, _free_float
--   Engine/Criticality    criticality.py: float_analysis and the queries of FloatAnalysis
-- The modules below these, and the others in Calendar, hold the proofs. Tests has runs at concrete
-- inputs.
--
-- Choices. A coordinate is a natural number of seconds from the calendar's epoch, as the compiler of
-- calendars produces it. The integers of Python may be negative: calendars, actual dates and constraint
-- dates before the epoch are outside the model. Durations and lags keep their sign, as integers. A UUID is a number, and a
-- dictionary keyed by UUIDs is a list with a lookup that takes the first row: the keys of each are
-- distinct once `validate` has accepted the network. `bisect_left`, `bisect_right` and `sorted` are
-- given by what Python documents of them. An index of -1 is `zero` or `none`, as each definition
-- says. `raise` is a value of `Result`. Each `for` loop is a recursion over the rows that are left. The
-- `while` loop of `_topological_order` runs on fuel, one round for each activity, and `run_ends` proves
-- that the queue is empty by then. A branch of a constraint type that the code leaves open is open
-- here too.
--
-- The keyword arguments of `backward_pass` and of `float_analysis` are the fields of a request. The
-- digest `Network.fingerprint` is a parameter: a function from networks to numbers, with nothing asked
-- of it. The rows that `backward_pass` places are a list with the newest in front.
--
-- Not modelled: the digests themselves (hashes of canonical JSON), those of the answers, the text of
-- the messages, and the check that `float_basis` is one of two words, which is the type's here.
-- Incremental recalculation, the rest of the compilation of calendars, the services, persistence,
-- importers and the command line are outside this library.
mod Prelude
pub mod Calendar
pub mod Engine
mod Tests
