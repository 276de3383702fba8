-- ===== src/Tests.antt =====
-- The theorems at concrete inputs, and runs of the definitions.
mod Setup
mod Codec
mod Config
mod Connections
mod Tunnels
mod Whole
mod Phases
mod Streams
mod Draining
mod Hosts
mod Quiet
mod Settling
mod Samples
mod Messages
mod Pipes
mod Sip
mod SipPipes
mod SipHosts
mod SipLossy
mod Joined
mod SipJoined
mod SipQuiet
mod SipSettling
