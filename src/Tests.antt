-- ===== src/Tests.antt =====
-- The theorems at concrete inputs, and runs of the model.
mod Setting
mod Locations
mod Worker
mod Chains
mod Areas
mod GeoJson
mod Mq
mod Filter
mod Logs
mod Locating
mod Config
mod Lifecycle
mod Environment
mod AreasService
mod Harness
mod History
mod Request
mod NewArea
