-- ===== src/Tests.antt =====
-- Tests of the definitions at concrete inputs, and one use of each theorem that has hypotheses.
pub mod Strings
pub mod Config
pub mod Schedule
pub mod Reports
pub mod Factory
pub mod ModuleList
pub mod Brokers
pub mod Service
pub mod Rounds
pub mod Udp
pub mod Ticks
pub mod Regexp
pub mod Child
pub mod Wmi
pub mod Watch
pub mod Logevent
pub mod Reported
