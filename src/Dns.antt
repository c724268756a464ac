-- ===== src/Dns.antt =====
-- labs/dnsserverlab-handout: the DNS server, and labs/dnsresolverlab-handout: the resolver. A `char`
-- array is the list of its bytes; a C string is the list of its characters, without the zero.
pub mod Name
pub mod Record
pub mod Server
pub mod Resolver
