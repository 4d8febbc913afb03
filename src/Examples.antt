-- ===== src/Examples.antt =====
-- The theorems at concrete inputs, and tests of the definitions.
mod Setup
mod Receiving
mod Sending
mod Peers
mod Delegating
mod Polling
mod Posting
mod Outgoing
mod Keys
mod Working
mod Disk
mod Serving
mod Trusting
mod Paying
mod Logging
mod Discovering
mod Sealing
mod Subscribing
mod Registering
