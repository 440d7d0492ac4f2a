-- ===== src/MicroStep.antt =====
-- src/uscxml/interpreter/FastMicroStep.cpp: one step of an SCXML machine over its compiled tables.
pub mod Tables
pub mod Select
pub mod History
pub mod Entry
pub mod Leave
pub mod Done
pub mod Enter
pub mod Step
pub mod Init
mod Example
mod Tests
mod RegularTests
mod GapTests
mod TreeTests
