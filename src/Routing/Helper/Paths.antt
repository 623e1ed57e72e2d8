-- ===== src/Routing/Helper/Paths.antt =====
-- The paths that the routes of include/audio/routing_compile.hpp describe, without a limit on their
-- number, and what the compilation makes of them.
use audiox.Routing.Edge.{Edge}
use audiox.Routing.Helper.{
  ℕ, List, Bool, is_helper, Compiled, append, direct_loop, joins, outgoing_loop, incoming_loop,
  expand_routing_helper,
}
use audiox.Prelude.{
  ◌==◌, length-take, le→ltb, lt→ltb, ltb, ◌∙◌, zero, refl, false, ◌&&◌, ◌%◌, true, take-all,
  append-nil, ap, ◌-◌, sym, suc, not, length-append, dec_lt, append_assoc, ◌*◌, take, subst,
  if◌then◌else◌, arith, [], ◌≤◌, ◌≡◌, ◌∷◌, ◌++◌, length, ℕ, List, Bool,
}

-- The edges that do not touch the helper.
abbrev pub direct : List Edge → List Edge
direct [] = []
direct (e ∷ es) =
    let rest = direct es in
    if not (is_helper e.src) && not (is_helper e.dst) then e ∷ rest else rest

-- From the source of an edge to the destination of another.
abbrev pub path : Edge → Edge → Edge
path i o = record {
  src = i.src;
  dst = o.dst;
  src_channel = i.src_channel;
  dst_channel = o.dst_channel;
}

-- An edge into the helper, with each edge out of the channel that it enters.
abbrev pub through : Edge → List Edge → List Edge
through i [] = []
through i (o ∷ os) =
    let rest = through i os in
    if is_helper o.src && (i.dst_channel == o.src_channel) then path i o ∷ rest else rest

abbrev pub all_through : List Edge → List Edge → List Edge
all_through all [] = []
all_through all (i ∷ is) = (if is_helper i.dst then through i all else []) ++ all_through all is

abbrev pub paths : List Edge → List Edge
paths es = direct es ++ all_through es es

take-append_long : (n : ℕ) (xs ys : List Edge) → n ≤ length xs → take n (xs ++ ys) ≡ take n xs
take-append_long zero xs ys h = refl
take-append_long (suc n) [] ys h = elim h [ ]
take-append_long (suc n) (x ∷ xs) ys h = ap (λ r. x ∷ r) (take-append_long n xs ys (omega arith))

-- The compiled edges are the first 128 of these paths, and the others are counted.
record Holds (ps : List Edge) (c : Compiled) : Type 0 where
  kept : c.edges ≡ take 128 ps
  counted : c.skipped ≡ (length ps - 128) % 65536

append-Holds :
    (e : Edge) (ps : List Edge) (c : Compiled) → Holds ps c → Holds (ps ++ e ∷ []) (append e c)
unfolding append
append-Holds e ps c v = elim (dec_lt (length ps) 128) [
  | yes p ↦
      let whole : take 128 ps ≡ ps = take-all 128 ps (omega arith) in
      let all : c.edges ≡ ps = v.kept ∙ whole in
      let room : ltb (length c.edges) 128 ≡ true = rw all (lt→ltb _ _ p) in
      rw room (record {
        kept =
            ap (λ l. l ++ e ∷ []) all
            ∙ sym (take-all 128 (ps ++ e ∷ []) (omega (arith, length-append ps (e ∷ []))));
        counted = omega (arith, v.counted, length-append ps (e ∷ []));
      })
  | no p ↦
      let full : ltb (length c.edges) 128 ≡ false =
        le→ltb _ _ (omega (arith, ap length v.kept, length-take 128 ps)) in
      rw full (record {
        kept = v.kept ∙ sym (take-append_long 128 ps (e ∷ []) (omega arith));
        counted = omega (arith, v.counted, length-append ps (e ∷ []));
      })
]

-- A step that may append an edge.
step-Holds :
    (b : Bool) (e : Edge) (ps rest : List Edge) (c : Compiled) (loop : Compiled → Compiled)
    → Holds ps c
    → ((qs : List Edge) (d : Compiled) → Holds qs d → Holds (qs ++ rest) (loop d))
    → Holds (ps ++ (if b then e ∷ rest else rest)) (loop (if b then append e c else c))
step-Holds true e ps rest c loop v later =
    subst (λ l. Holds l (loop (append e c))) (append_assoc ps (e ∷ []) rest)
      (later (ps ++ e ∷ []) (append e c) (append-Holds e ps c v))
step-Holds false e ps rest c loop v later = later ps c v

direct_loop-Holds :
    (es ps : List Edge) (c : Compiled) → Holds ps c → Holds (ps ++ direct es) (direct_loop es c)
unfolding direct_loop
direct_loop-Holds [] ps c v = subst (λ l. Holds l c) (sym (append-nil ps)) v
direct_loop-Holds (e ∷ es) ps c v =
    step-Holds (not (is_helper e.src) && not (is_helper e.dst)) e ps (direct es) c (direct_loop es)
      v (direct_loop-Holds es)

outgoing_loop-Holds :
    (i : Edge) (os ps : List Edge) (c : Compiled)
    → Holds ps c
    → Holds (ps ++ through i os) (outgoing_loop i os c)
unfolding outgoing_loop
outgoing_loop-Holds i [] ps c v = subst (λ l. Holds l c) (sym (append-nil ps)) v
outgoing_loop-Holds i (o ∷ os) ps c v =
    step-Holds (joins i o) (path i o) ps (through i os) c (outgoing_loop i os) v
      (outgoing_loop-Holds i os)

incoming_loop-Holds :
    (all is ps : List Edge) (c : Compiled)
    → Holds ps c
    → Holds (ps ++ all_through all is) (incoming_loop all is c)
unfolding incoming_loop
incoming_loop-Holds all [] ps c v = subst (λ l. Holds l c) (sym (append-nil ps)) v
incoming_loop-Holds all (i ∷ is) ps c v =
    subst (λ l. Holds l (incoming_loop all (i ∷ is) c))
      (append_assoc ps (if is_helper i.dst then through i all else []) (all_through all is))
      (incoming_loop-Holds all is _ _ (into (is_helper i.dst)))
  where
    into :
        (b : Bool)
        → Holds (ps ++ (if b then through i all else [])) (if b then outgoing_loop i all c else c)
    into true = outgoing_loop-Holds i all ps c v
    into false = subst (λ l. Holds l c) (sym (append-nil ps)) v

length-direct : (es : List Edge) → length (direct es) ≤ length es
length-direct [] = omega arith
length-direct (e ∷ es) = ground (arith, length-direct es)

length-through : (i : Edge) (os : List Edge) → length (through i os) ≤ length os
length-through i [] = omega arith
length-through i (o ∷ os) = ground (arith, length-through i os)

length-all_through :
    (all is : List Edge) → length all ≤ 128 → length (all_through all is) ≤ 128 * length is
length-all_through all [] h = omega arith
length-all_through all (i ∷ is) h =
    let part = if is_helper i.dst then through i all else [] in
    let few : length part ≤ 128 = into (is_helper i.dst) in
    omega (arith, length-append part (all_through all is), length-all_through all is h)
  where
    into : (b : Bool) → length (if b then through i all else []) ≤ 128
    into true = omega (arith, length-through i all)
    into false = omega arith

-- Of at most 128 edges: the compiled edges are the first 128 of all paths: the direct edges in their order, then each
-- edge into the helper joined to each edge out of the channel that it enters, in the order of the
-- former, then of the latter. The result is the number of the paths left out, which fits its 16 bits.
pub expand_routing_helper-eq :
    (es : List Edge)
    → length es ≤ 128
    → ((expand_routing_helper es).edges ≡ take 128 (paths es))
      × ((expand_routing_helper es).skipped ≡ length (paths es) - 128)
unfolding expand_routing_helper
expand_routing_helper-eq es h =
    let v =
      incoming_loop-Holds es es (direct es) _
        (direct_loop-Holds es [] _ (record { kept = refl; counted = refl })) in
    (
      v.kept,
      omega (
        arith,
        v.counted,
        length-append (direct es) (all_through es es),
        length-direct es,
        length-all_through es es h,
      ),
    )
