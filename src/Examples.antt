-- ===== src/Examples.antt =====
-- The theorems at concrete inputs, and runs of the definitions.
mod Buffer
mod Filter
mod Table
mod Cache
mod Protocol
mod Log
mod Memory
mod Index
mod Merging
mod Joining
mod Database
mod Client
mod Files
mod Answer
