-- ===== src/Tests.antt =====
-- The theorems at concrete inputs.
mod Wire
mod Filter
mod Workers
mod Serving
mod Second
mod Reloads
mod Links
mod Commands
mod Removals
mod Intakes
