-- ===== src/Tests.antt =====
-- Runs of the models on concrete inputs.
mod Link
mod Core
mod Url
mod Store
mod Latest
mod Page
mod Profile
mod Host
mod Content
