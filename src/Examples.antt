-- ===== src/Examples.antt =====
-- The theorems on concrete inputs, by the part of the program.
mod Fields
mod Tables
mod Maps
mod Memory
mod Processor
mod Machine
mod Runtime
mod Image
mod Loaders
