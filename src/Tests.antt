-- ===== src/Tests.antt =====
-- Instances of the theorems at concrete inputs, one module for each part of the program.
mod Links
mod Slots
mod Vehicles
mod Services
mod Writes
mod Gateways
mod Operations
mod Servers
mod Records
