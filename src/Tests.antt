-- ===== src/Tests.antt =====
-- Runs of the models at concrete inputs.
mod Samples
mod Calendars
mod Networks
mod Passes
mod Plans
mod LatePasses
mod Floats
