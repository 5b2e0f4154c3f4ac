-- ===== src/Examples.antt =====
-- Concrete runs: a Redis server and a disk that are plain functions, and the theorems applied to
-- requests on them.
mod Server
mod Service
mod Runs
mod Helpers
mod Endpoints
mod Steps
mod Listings
mod Copies
mod Starts
