-- ===== src/Controller.antt =====
-- pkg/controller: the profile of a workload is made of the profiles of its pods.
pub mod Defs
pub mod Merge
pub mod Facts
pub mod Union
pub mod Once
pub mod Requests
pub mod Names
pub mod Owners
pub mod Agreement
