-- ===== src/Copy.antt =====
-- src/ph_copy.c: a new thread's own copies of the functions, classes, constants and settings of the
-- main thread.
pub mod Zend
pub mod Tables
pub mod Values
pub mod Functions
pub mod Classes
pub mod Globals
pub mod Local
pub mod Statics
