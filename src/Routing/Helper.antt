-- ===== src/Routing/Helper.antt =====
-- include/audio/routing_compile.hpp: the routes through the routing helper, joined to direct ones.
pub mod Paths
use audiox.Routing.Edge.{Edge}
use Prim.Native.Nat.{ℕ}
use audiox.Prelude.{
  ◌%◌, ◌+◌, ◌++◌, ◌==◌, not, length, codes, ◌∷◌, ◌&&◌, ltb, bytes_eq, [], ℕ, if◌then◌else◌, List,
  Bool,
}

abbrev pub max_edges : ℕ
max_edges = 128

abbrev pub is_helper : List ℕ → Bool
is_helper id = bytes_eq id (codes "routing_helper")

-- The compiled edges and the number of those skipped, which has 16 bits.
pub record Compiled : Type 0 where
  pub edges : List Edge
  pub skipped : ℕ

unfoldable pub append : Edge → Compiled → Compiled
append e c =
    if ltb (length c.edges) max_edges
    then record c { edges = c.edges ++ (e ∷ []) }
    else record c { skipped = (c.skipped + 1) % 65536 }

unfoldable pub direct_loop : List Edge → Compiled → Compiled
direct_loop [] c = c
direct_loop (e ∷ es) c =
    direct_loop es (if not (is_helper e.src) && not (is_helper e.dst) then append e c else c)

abbrev pub joins : Edge → Edge → Bool
joins incoming outgoing = is_helper outgoing.src && (incoming.dst_channel == outgoing.src_channel)

abbrev pub joined : Edge → Edge → Edge
joined incoming outgoing = record {
  src = incoming.src;
  dst = outgoing.dst;
  src_channel = incoming.src_channel;
  dst_channel = outgoing.dst_channel;
}

unfoldable pub outgoing_loop : Edge → List Edge → Compiled → Compiled
outgoing_loop incoming [] c = c
outgoing_loop incoming (o ∷ os) c =
    outgoing_loop incoming os (if joins incoming o then append (joined incoming o) c else c)

unfoldable pub incoming_loop : List Edge → List Edge → Compiled → Compiled
incoming_loop all [] c = c
incoming_loop all (i ∷ is) c =
    incoming_loop all is (if is_helper i.dst then outgoing_loop i all c else c)

unfoldable pub expand_routing_helper : List Edge → Compiled
expand_routing_helper es = incoming_loop es es (direct_loop es (record { edges = []; skipped = 0 }))
