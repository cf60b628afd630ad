-- ===== src/Tests.antt =====
-- The theorems at concrete inputs, over a hash table that is an association list and a fixed system.
mod Assoc
mod Setup
mod Files
mod Lists
mod Requests
mod Messages
mod Routes
mod Protocol
mod Stations
mod Threads
