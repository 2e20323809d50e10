-- ===== src/Tests.antt =====
-- Runs of the model on small resources, and the theorems applied to them.
mod Sample
mod Api
mod Generator
mod Controller
mod Cluster
mod Calm
mod Start
mod Frame
mod Routes
mod Steady
mod Runs
mod Conversion
mod Served
mod Copies
mod OldCopies
