-- ===== src/Tests.antt =====
-- Concrete runs of the development's definitions, and the theorems at concrete inputs.
mod Codec
mod Wire
mod Calls
mod Files
mod Programs
mod CommandTool
mod Transfers
mod Streams
mod Copies
mod Output
