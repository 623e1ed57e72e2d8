-- ===== src/Routing/Tests.antt =====
-- Routes and the routing helper on small graphs.
use audiox.Prelude.Result.{ok}
use audiox.Routing.Edge.{Edge, parse_route, route_text, trim_space, trim_start, trim_end, has_comma}
use audiox.Routing.Edge.Reading.{IsEdge, parse_route-route_text}
use audiox.Routing.Helper.{expand_routing_helper}
use audiox.Routing.Helper.Paths.{paths, expand_routing_helper-eq}
use audiox.Prelude.{◌-◌, refl, length, [], ◌∷◌, ℕ, take, inr, ◌≡◌, ◌++◌, codes, arith, List}

abbrev route : List ℕ → List ℕ → ℕ → ℕ → Edge
route src dst i o = record { src = src; dst = dst; src_channel = i; dst_channel = o }

abbrev helper : List ℕ
helper = codes "routing_helper"

abbrev mic : Edge
mic = route (codes "alsa_mic_dev0_in") (codes "usb_gadget_out") 0 1

mic-IsEdge : IsEdge mic
unfolding trim_space trim_start trim_end has_comma
mic-IsEdge = record {
  src_id = record { some_byte = refl; short = omega arith; no_comma = refl; trimmed = refl };
  dst_id = record { some_byte = refl; short = omega arith; no_comma = refl; trimmed = refl };
  src_byte = omega arith;
  dst_byte = omega arith;
}

-- A fifth field is not noticed.
fifth_field_example : parse_route (route_text mic ++ codes ",junk") ≡ ok mic
fifth_field_example =
    parse_route-route_text mic (codes ",junk") mic-IsEdge (inr (codes "junk", refl))

-- Two sources and two sinks meet in the channel 0 of the helper, one sink in the channel 1.
abbrev graph : List Edge
graph =
    route (codes "a") helper 0 0
    ∷ route helper (codes "x") 0 0
    ∷ mic
    ∷ route (codes "b") helper 1 0
    ∷ route helper (codes "y") 0 1
    ∷ route helper (codes "z") 1 0
    ∷ []

helper_paths :
    paths graph
    ≡ mic
      ∷ route (codes "a") (codes "x") 0 0
      ∷ route (codes "a") (codes "y") 0 1
      ∷ route (codes "b") (codes "x") 1 0
      ∷ route (codes "b") (codes "y") 1 1
      ∷ []
helper_paths = refl

helper_example :
    ((expand_routing_helper graph).edges ≡ take 128 (paths graph))
    × ((expand_routing_helper graph).skipped ≡ length (paths graph) - 128)
helper_example = expand_routing_helper-eq graph (omega arith)
