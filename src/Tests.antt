-- ===== src/Tests.antt =====
-- Runs of the modelled code on concrete inputs, and the theorems at such inputs.
mod Versions
mod Texts
mod Scans
mod Loads
mod Images
mod Flash
mod Squash
