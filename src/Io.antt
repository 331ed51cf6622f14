-- ===== src/Io.antt =====
-- src/system/nx/io/io.c: input and output over file descriptors.
pub mod Dump
