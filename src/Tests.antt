-- ===== src/Tests.antt =====
-- Concrete parameters, runs of the program's parts on concrete inputs, and each theorem applied
-- at an input where its hypotheses hold.
mod Toys
mod Chips
mod Drivers
mod Texts
mod Packets
mod Clients
mod Sockets
mod Airs
mod Orders
mod Systems
mod Threads
mod Retries
mod Crossed
mod Messages
