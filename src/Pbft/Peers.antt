-- ===== src/Pbft/Peers.antt =====
-- bootstrap/peer_address.hpp: the address of a peer. Its `operator==` leaves the name out.
use swarm_db.Base.{ℕ, Bool, ◌&&◌, ◌%◌, String, u16_mod}
use swarm_db.Base.Equality.{◌==◌, string_eq, nat_eq}
use swarm_db.Proto.{PeerInfo}

pub record PeerAddress : Type 0 where
  pub host : String
  pub port : ℕ
  pub http_port : ℕ
  pub name : String
  pub uuid : String

abbrev pub same_address : PeerAddress → PeerAddress → Bool
same_address a b =
    a.host == b.host && a.port == b.port && a.http_port == b.http_port && a.uuid == b.uuid

-- static_cast<uint16_t> of both ports
unfoldable pub to_peer_address : PeerInfo → PeerAddress
to_peer_address i = record {
  host = i.host;
  port = i.port % u16_mod;
  http_port = i.http_port % u16_mod;
  name = i.name;
  uuid = i.uuid;
}
