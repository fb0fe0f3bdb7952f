-- ===== src/Net.antt =====
-- The network stack of net/: byte order, the internet checksum, ARP, IPv4, UDP and TCP.
pub mod Endian
pub mod Checksum
pub mod State
pub mod Ethernet
pub mod Arp
pub mod Ip
pub mod Icmp
pub mod Tcp
pub mod Udp
mod Tests
