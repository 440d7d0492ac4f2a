-- ===== src/Util.antt =====
-- Texts: src/uscxml/util/Convenience.cpp, src/uscxml/util/String.cpp, and the JSON escapes of
-- src/uscxml/messages/Data.cpp.
pub mod Convenience
pub mod Json
pub mod Strings
mod Tests
