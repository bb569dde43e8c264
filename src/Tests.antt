-- ===== src/Tests.antt =====
-- Runs of the models on concrete inputs, and each theorem at an input that meets its hypotheses.
mod Streaming
mod Masking
mod Serving
mod Collecting
mod Documents
mod Matching
mod Escaping
mod Relaying
mod Storing
mod Settings
mod Admitting
mod Starting
mod Walking
mod Detecting
