-- ===== src/Debug.antt =====
-- Breakpoints: src/uscxml/debug/Breakpoint.h and Breakpoint.cpp.
pub mod Breakpoint
