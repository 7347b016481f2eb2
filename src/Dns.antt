-- ===== src/Dns.antt =====
-- The DNS server of src/dns/server.rs. A packet is the list of its bytes. Indexing and slicing out
-- of bounds panic, so that the absence of panics is a theorem; the loops over a packet run on fuel.
-- `str::to_lowercase` is a parameter; sockets are left out, what they deliver is an argument.
pub mod Exec
pub mod Server
