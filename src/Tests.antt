-- ===== src/Tests.antt =====
-- Concrete runs: the theorems at inputs that meet their hypotheses, and small tests.
mod Frames
mod Targets
mod Registers
mod Machines
mod Dwarf
mod Debugger
mod Steps
mod Ids
mod Connection
mod App
mod Wire
mod Lost
