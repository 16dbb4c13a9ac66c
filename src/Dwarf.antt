-- ===== src/Dwarf.antt =====
-- src/dwarf: the index between source lines and addresses, and the rows that it is built from.
pub mod Index
pub mod Parse
