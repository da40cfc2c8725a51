-- ===== src/Script.antt =====
-- packages/script: the virtual machine that runs compiled contracts.
pub mod Value
pub mod Operators
pub mod Exec
pub mod Runtime
pub mod Memory
pub mod Literals
pub mod Commands
pub mod Calls
pub mod ExtCalls
pub mod Vm
pub mod Run
pub mod Keeps
pub mod Cost
pub mod Depth
pub mod Booking
pub mod Integers
pub mod Assign
pub mod Cycles
pub mod Entry
pub mod Leaving
mod Tests
