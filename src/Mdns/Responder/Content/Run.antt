-- ===== src/Mdns/Responder/Content/Run.antt =====
-- What the polls of the responder of src/http/mdns.cpp send.
use audiox.Mdns.Reply.{build_reply, build_announcement}
use audiox.Mdns.Reply.Exact.{build_reply-IsReply, wire_announcement, build_announcement-cases}
use audiox.Mdns.Responder.{
  none, Option, announcement_interval_ms, add64, leb, bytes_eq, suc, not, ltb, take, true, false,
  some, ℕ, List, Bool, multicast, Responder, new, send_multicast, send_unicast, Packet, host_of,
  answer, handle_packets, announce, Polled, check_interface, serve, poll, run, port,
  max_send_packet,
}
use audiox.Prelude.{
  ◌⊎◌, none, Option, ◌&&◌, length, ◌-◌, take-all, leb, ◌∙◌, ap, inr, zero, ltb→lt, bytes_eq, ◌<◌,
  inl, Bool-cases, ◌==◌, subst, not, ltb, ◌∷◌, take, refl, ◌≤◌, true, false, [], ◌≡◌, if◌then◌else◌,
  arith, ℕ, List, Bool,
}
use audiox.Prelude.Words.{add64}
use audiox.Mdns.Responder.Kept.{sent-open, answer-open, announce-open}
use audiox.Mdns.Responder.Content.{
  up, Sendable, FromHost, IsSound, pick-IsSound, refresh_interface-IsSound,
}

-- The packets that the polls gave.
abbrev pub Among : Packet → List Packet → Type 0
Among p [] = ⊥
Among p (q ∷ qs) = (p ≡ q) ⊎ Among p qs

abbrev pub Received : List Polled → Packet → Type 0
Received [] p = ⊥
Received (q ∷ qs) p = Among p q.packets ⊎ Received qs p

module _ {Got : Packet → Type 0} {name : List ℕ} where
  -- What an open socket sends.
  Sendable-FromHost :
      (to : Option (List ℕ)) (b : List ℕ) (s : Responder)
      → IsSound Got name s
      → s.is_open ≡ true
      → Sendable Got (host_of s) to b
      → FromHost Got name (up s.log) to b
  Sendable-FromHost to b s v e h =
      let at_host : up s.log ≡ some s.address = rw e at (v.socket) in
      rw at_host (
        subst (λ (n : List ℕ). Sendable Got (record { name = n; address = s.address }) to b) v.named
          h)

  send_multicast-IsSound :
      (b : List ℕ) (now : ℕ) (accepted : Bool) (s : Responder)
      → IsSound Got name s
      → s.is_open ≡ true
      → Sendable Got (host_of s) none b
      → IsSound Got name (send_multicast b now accepted s)
  unfolding send_multicast
  send_multicast-IsSound b now accepted s v e h =
      let sent = record s {
        last_multicast = b;
        last_multicast_ms = now;
        log = multicast now b ∷ s.log;
      } in
      pick-IsSound _ s _ (λ f. v)
        (λ f.
          pick-IsSound (not accepted) s sent (λ g. v)
            (λ g. record {
              named = v.named;
              socket = v.socket;
              left = v.left;
              sound = (Sendable-FromHost none b s v e h, v.sound);
            }))

  send_unicast-IsSound :
      (to b : List ℕ) (s : Responder)
      → IsSound Got name s
      → s.is_open ≡ true
      → Sendable Got (host_of s) (some to) b
      → IsSound Got name (send_unicast to b s)
  unfolding send_unicast
  send_unicast-IsSound to b s v e h = record {
    named = v.named;
    socket = v.socket;
    left = v.left;
    sound = (Sendable-FromHost (some to) b s v e h, v.sound);
  }

  answer-IsSound :
      (p : Packet) (now : ℕ) (s : Responder)
      → Got p
      → bytes_eq p.source s.address ≡ false
      → IsSound Got name s
      → s.is_open ≡ true
      → IsSound Got name (answer p now s)
  unfolding answer
  answer-IsSound p now s got other v e =
      let legacy = not (p.source_port == port) in
      let built = build_reply p.query (host_of s) legacy max_send_packet in
      let r = built.0 in
      let out = built.1 in
      pick-IsSound (r.length == 0) s _ (λ f. v)
        (λ f.
          let exact =
            build_reply-IsReply p.query (host_of s) legacy max_send_packet (nonzero r.length f) in
          pick-IsSound r.unicast _ _
            (λ g.
              send_unicast-IsSound p.source (take r.length out) s v e
                (Sendable.reply p r out got other exact (rw g refl) refl))
            (λ g.
              send_multicast-IsSound (take r.length out) now p.accepted s v e
                (Sendable.reply p r out got other exact (rw g refl) refl)))
    where
      nonzero : (n : ℕ) → (n == 0) ≡ false → 0 < n
      nonzero zero h = absurd cc
      nonzero (suc n) h = omega arith

  handle_packets-IsSound :
      (n : ℕ) (ps : List Packet) (now : ℕ) (s : Responder)
      → ((p : Packet) → Among p ps → Got p)
      → IsSound Got name s
      → s.is_open ≡ true
      → IsSound Got name (handle_packets n ps now s)
  unfolding handle_packets
  handle_packets-IsSound zero ps now s got v e = v
  handle_packets-IsSound (suc n) [] now s got v e = v
  handle_packets-IsSound (suc n) (p ∷ ps) now s got v e =
      elim (Bool-cases (bytes_eq p.source s.address)) [
        | inl f ↦ rw f (handle_packets-IsSound n ps now s (λ q h. got q (inr h)) v e)
        | inr f ↦ rw f (
            handle_packets-IsSound n ps now (answer p now s) (λ q h. got q (inr h))
              (answer-IsSound p now s (got p (inl refl)) f v e) (answer-open p now s ∙ e))
      ]

  announcement_part :
      (now : ℕ) (accepted : Bool) (s : Responder)
      → IsSound Got name s
      → s.is_open ≡ true
      → IsSound Got name (
          let (n, out) = build_announcement (host_of s) max_send_packet in
          if ltb 0 n then send_multicast (take n out) now accepted s else s)
  announcement_part now accepted s v e =
      let built = build_announcement (host_of s) max_send_packet in
      pick-IsSound (ltb 0 built.0) _ s
        (λ f.
          send_multicast-IsSound (take built.0 built.1) now accepted s v e
            (elim (build_announcement-cases (host_of s) max_send_packet) [
              | inl z ↦ absurd (omega (arith, ltb→lt 0 built.0 f))
              | inr x ↦ Sendable.announcement refl (
                  ap (λ k. take k built.1) x.1
                  ∙ rw x.0 (take-all (length (wire_announcement (host_of s))) _ (omega arith)))
            ]))
        (λ f. v)

  announce-IsSound :
      (now : ℕ) (accepted : Bool) (s : Responder)
      → IsSound Got name s
      → s.is_open ≡ true
      → IsSound Got name (announce now accepted s)
  unfolding announce
  announce-IsSound now accepted s v e =
      let built = build_announcement (host_of s) max_send_packet in
      let c = announcement_part now accepted s v e in
      let sent =
        if ltb 0 built.0 then send_multicast (take built.0 built.1) now accepted s else s in
      let still : sent.is_open ≡ true =
        sent-open (ltb 0 built.0) (take built.0 built.1) now accepted s ∙ e in
      let due = record sent {
        announcements_left = s.announcements_left - 1;
        next_announce_ms = add64 now announcement_interval_ms;
      } in
      pick-IsSound (ltb 0 s.announcements_left && leb s.next_announce_ms now) due s
        (λ f. record {
          named = c.named;
          socket = c.socket;
          left = rw still (lower s.announcements_left (rw e at (v.left)));
          sound = c.sound;
        })
        (λ f. v)
    where
      lower : (n : ℕ) → n ≤ 2 → n - 1 ≤ 2
      lower n h = omega arith

  poll-IsSound :
      (p : Polled) (s : Responder)
      → ((q : Packet) → Among q p.packets → Got q)
      → IsSound Got name s
      → IsSound Got name (poll p s)
  unfolding poll serve check_interface
  poll-IsSound p s got v =
      let checked = check_interface p s in
      let c : IsSound Got name checked =
        pick-IsSound (leb s.next_check_ms p.now) _ s
          (λ f.
            refresh_interface-IsSound p.now p.control p.link _ _
              (record { named = v.named; socket = v.socket; left = v.left; sound = v.sound }))
          (λ f. v) in
      pick-IsSound (not checked.is_open) checked _ (λ f. c)
        (λ f.
          let e = open_of checked.is_open f in
          handle_packets-IsSound 16 p.packets p.now _ got
            (announce-IsSound p.now p.accepted checked c e)
            (announce-open p.now p.accepted checked ∙ e))
    where
      open_of : (b : Bool) → not b ≡ false → b ≡ true
      open_of true h = refl
      open_of false h = cc

  run_from :
      (ps : List Polled) (s : Responder)
      → ((q : Packet) → Received ps q → Got q)
      → IsSound Got name s
      → IsSound Got name (run ps s)
  unfolding run
  run_from [] s got v = v
  run_from (p ∷ ps) s got v =
      run_from ps (poll p s) (λ q h. got q (inr h)) (poll-IsSound p s (λ q h. got q (inl h)) v)

-- After any polls of a new responder, whatever the system answers: the socket is opened only when
-- it is closed, packets are sent only while it is open, and each is, byte by byte, the announcement
-- of the host for the address that the socket was opened for, or the reply to a packet that one of
-- the polls received from another host. A reply that is to go to its querier alone goes to that
-- packet's sender, any other to the group, and a sender with another port than 5353 is answered as
-- a legacy querier. At most two announcements are to come.
pub run-IsSound :
    (ps : List Polled) (host_label : List ℕ)
    → IsSound (Received ps) (new host_label).host_name (run ps (new host_label))
unfolding new
run-IsSound ps host_label =
    run_from ps _ (λ q h. h)
      (record { named = refl; socket = refl; left = omega arith; sound = tt })
