-- ===== src/Tests.antt =====
-- Concrete inputs for the theorems of the other modules.
pub mod Example
pub mod States
mod Run
mod Tree
pub mod Service
mod Printed
pub mod Apps
mod Costs
pub mod Emulation
mod Server
mod Programs
mod Clients
mod Guarded
