-- ===== src/Tests.antt =====
-- Small inputs on which the theorems are applied, one module for each part of the program.
mod JsonTexts
mod Ranges
mod Repairs
mod Evictions
mod Passes
mod Cascades
mod Registries
mod Reads
mod Links
mod Items
mod Clients
mod Mounts
