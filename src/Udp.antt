-- ===== src/Udp.antt =====
-- src/src/udp: datagrams with a one-byte marker, and probes that stand for connections.
pub mod Datagram
pub mod Server
pub mod Client
pub mod Exchange
use nil_service.Common.{ℕ, ◌++◌, List, [], ◌∷◌, Bytes}
use nil_service.Codec.{Endian, to_array}

-- utils.hpp: the marker of a datagram.
abbrev pub udp_internal_message : ℕ
udp_internal_message = 1

abbrev pub udp_external_message : ℕ
udp_external_message = 0

-- The datagram of a probe, and that of a message.
unfoldable pub probe : Endian → Bytes
probe e = to_array e 1 udp_internal_message

unfoldable pub external : Endian → Bytes → Bytes
external e msg = to_array e 1 udp_external_message ++ msg
