-- ===== src/Witnesses.antt =====
-- The theorems at concrete inputs, with the objects of Data, and runs of the definitions.
mod Data
mod Runs
mod Slices
mod Workers
mod Rotations
mod Numbers
mod Gateways
mod Services
mod Stored
mod Access
mod Derived
mod Projects
