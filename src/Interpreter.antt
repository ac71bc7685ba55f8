-- ===== src/Interpreter.antt =====
-- casestudy/sbpf/src/interpreter.rs, with the parts of vm.rs, program.rs and error.rs that the
-- interpreter runs on.
pub mod Types
pub mod Words
pub mod Arms
pub mod Frames
pub mod Calls
pub mod Step
pub mod Run
pub mod Safety
