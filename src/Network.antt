-- ===== src/Network.antt =====
-- shawncoin/src/network/node.cpp and netbase.cpp: the node's peers and its running flag. Nothing
-- listens and nothing is sent: the two broadcasts do nothing.
use shawncoin.Prelude.{
  ℕ, Bool, true, false, not, ◌&&◌, ◌||◌, List, [], ◌∷◌, ◌++◌, ◌==◌, if◌then◌else◌,
}
use shawncoin.Wire.{Bytes}

pub record NetAddr : Type 0 where
  pub host : Bytes
  pub port : ℕ

pub record Peer : Type 0 where
  pub addr : NetAddr
  pub id : Bytes
  pub connected : Bool
  pub inbound : Bool

pub record Node : Type 0 where
  pub running : Bool
  pub listen_port : ℕ
  pub peers : List Peer

abbrev pub p2p_port : ℕ
p2p_port = 7333

unfoldable pub new_node : Node
new_node = record { running = false; listen_port = p2p_port; peers = [] }

-- A node that runs is left as it is.
unfoldable pub start : ℕ → Node → Node
start port node = if node.running then node else record node { running = true; listen_port = port }

unfoldable pub stop : Node → Node
stop node = record node { running = false }

unfoldable pub connect_to_peer : Bytes → ℕ → Node → Node
connect_to_peer host port node = record node {
  peers =
      node.peers
      ++ (record {
        addr = record { host = host; port = port };
        id = [];
        connected = false;
        inbound = false;
      }
          ∷ []);
}

unfoldable pub get_peers : Node → List Peer
get_peers node = node.peers

-- std::find of a character.
unfoldable pub has_char : ℕ → Bytes → Bool
has_char d [] = false
has_char d (c ∷ text) = (c == d) || has_char d text

unfoldable pub is_ipv4 : NetAddr → Bool
unfolding has_char
is_ipv4 a = not (has_char b':' a.host) && has_char b'.' a.host

unfoldable pub is_ipv6 : NetAddr → Bool
unfolding has_char
is_ipv6 a = has_char b':' a.host
