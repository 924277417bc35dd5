-- ===== src/Factory.antt =====
-- `getModuleFromDefinition` (modules/pandora_module_factory.cc): the tokens of a module definition, the
-- macros, and the module that is built from them.
pub mod Tokens
pub mod Macros
pub mod Work
pub mod Build
