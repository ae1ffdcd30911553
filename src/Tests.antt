-- ===== src/Tests.antt =====
-- Runs of the theorems at concrete inputs.
mod Connections
mod Messages
mod Servers
mod Clients
mod Datagrams
mod Gateways
mod Web
mod CalledFromC
mod Sessions
mod Relays
mod Pipes
mod Exchanges
