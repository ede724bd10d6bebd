-- ===== src/Tests.antt =====
-- Concrete runs of the model.
mod Versions
mod Runs
mod Settings
mod Commands
mod Collectors
mod Records
mod Program
mod Rounds
