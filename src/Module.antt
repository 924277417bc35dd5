-- ===== src/Module.antt =====
-- `Pandora_Module` (modules/pandora_module.cc), the class of which every module is.
pub mod Values
pub mod Watch
pub mod Logevent
pub mod Regexp
pub mod Inventory
pub mod Preconditions
pub mod Exec
pub mod Kinds
pub mod Defs
pub mod Setters
pub mod Conditions
pub mod Output
pub mod Xml
