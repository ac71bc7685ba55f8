-- ===== src/Tests.antt =====
-- Runs of the model on the inputs of the source's unit tests, and the theorems at concrete inputs.
mod Runs
mod Witnesses
mod Verified
mod Execution
mod Interpreted
mod Mapping
mod Placing
mod ElfFile
mod Built
mod Cached
