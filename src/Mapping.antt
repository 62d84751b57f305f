-- ===== src/Mapping.antt =====
-- The store of interface mappings (pkg/mapping/interface_mapping.go): each mapping under its ENI ID,
-- and two indexes from PCI address and interface name to the ENI ID. A method under the mutex is one
-- step. JSON and the file are parameters: `write` takes the mappings in the order Go's map yields
-- them, here that of the association list, and `read` gives them back.
pub mod Store
mod Lookup
mod Consistent
mod Tests
