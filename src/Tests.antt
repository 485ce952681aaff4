-- ===== src/Tests.antt =====
-- Runs of the definitions on small inputs, and each theorem at an input that meets its hypotheses.
mod Guac
mod Tunnel
mod Schedule
mod Policy
mod Handshake
mod Metakeys
mod Naming
mod Params
mod EventHub
mod Governance
mod Session
mod Kasm
mod Controller
mod Sweeper
mod HostGuard
mod Webhook
mod Templates
