-- ===== src/Tests.antt =====
-- Runs of the modelled functions on concrete inputs, and the theorems at concrete inputs.
mod Utf8
mod Arena
mod Json
mod Track
mod References
mod Session
mod Buffer
mod Writer
mod Readers
mod Safetensors
mod Device
mod Sha256
mod Random
mod Keys
mod Index
