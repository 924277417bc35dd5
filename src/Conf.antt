-- ===== src/Conf.antt =====
-- `Pandora_Agent_Conf` (pandora_agent_conf.cc): the configuration that is read from a file, and
-- the list of file collections with its iterator. A file is the text that a stream opened in text
-- mode reads; a path at which no file can be opened has none.
pub mod Defs
pub mod File
pub mod Broker
