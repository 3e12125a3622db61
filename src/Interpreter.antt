-- ===== src/Interpreter.antt =====
-- src/interpreter.c: the instructions and the main loop.
pub mod Stacks
pub mod Moves
pub mod Plane
pub mod Execute
pub mod Run
pub mod Iterate
pub mod Loop
pub mod Text
pub mod Order
pub mod Program
pub mod Sound
mod Samples
mod Tests
