-- ===== src/Tests.antt =====
-- Runs of the definitions on concrete inputs, and the theorems applied to such.
mod Systems
mod Threads
mod Copies
mod Scripts
mod Structures
mod Strings
mod Tables
mod Messages
mod Supervision
mod Life
mod Sending
mod Leaks
