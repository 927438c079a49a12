-- ===== src/Tests.antt =====
-- Concrete inputs for the theorems, and runs of the model on them.
mod Memory
mod Records
mod Checker
mod Storage
mod Ownership
mod Capacity
mod Quota
mod Worker
mod Peer
mod Selection
mod PeerMemory
mod PeerCache
mod Api
mod Monitor
mod Migration
mod Receipts
mod Probe
