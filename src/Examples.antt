-- ===== src/Examples.antt =====
-- The theorems at concrete inputs, over a small concrete transport.
mod Transport
mod Feed
mod Arrivals
mod Gate
mod Tokens
mod Transfers
mod Servers
mod Dispatch
mod Egress
mod Client
mod Connecting
mod Api
mod Texts
mod Logger
mod Certificates
