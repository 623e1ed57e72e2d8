-- ===== src/Mdns/Responder/Spacing/Run.antt =====
-- The packets to the group that the polls of the responder of src/http/mdns.cpp send.
use audiox.Prelude.{zero, ◌∙◌, ◌-◌, leb, Bool-cases, take, length}
use audiox.Prelude.Words.{add64, sub64}
use audiox.Prelude.Text.{bytes_eq_refl}
use audiox.Mdns.Reply.{build_reply, build_announcement}
use audiox.Mdns.Responder.{
  announcement_interval_ms, socket_ready, leb, interface_check_interval_ms, take, suc, add64,
  bytes_eq, true, not, ltb, some, none, false, Bool, ℕ, List, multicast, Responder, new,
  refresh_interface, send_multicast, send_unicast, Packet, host_of, answer, handle_packets,
  announce, Polled, check_interface, serve, poll, run, port, max_send_packet,
}
use audiox.Prelude.{
  ltb→le, arith, refl, inr, ==_refl, ◌≤◌, ◌∷◌, bytes_eq, ◌⊎◌, ◌+◌, true, not, ltb, if◌then◌else◌,
  ◌^◌, ◌==◌, ◌&&◌, none, inl, false, ◌≡◌, ◌<◌, length, [], Bool, ℕ, List,
}
use audiox.Mdns.Responder.Kept.{announce-open, answer-open}
use audiox.Mdns.Responder.Spacing.{
  latest, Apart, Spaced, IsSpaced, if-IsSpaced, refresh_interface-IsSpaced,
}

-- A packet that is not held back is new, or a second has passed.
not_repeated :
    (b c : List ℕ) (u now : ℕ)
    → ((length b == length c) && (ltb (sub64 now u) 1000 && bytes_eq b c)) ≡ false
    → u ≤ now
    → now < 2 ^ 64
    → b ≡ c
    → u + 1000 ≤ now
not_repeated b c u now e h small same =
    let f : ltb (sub64 now u) 1000 ≡ false =
      passed _ (rw (same, ==_refl (length c), bytes_eq_refl c) at e) in
    let g = ltb→le (sub64 now u) 1000 f in omega arith
  where
    passed : (t : Bool) → (t && true) ≡ false → t ≡ false
    passed true p = p
    passed false p = refl

module _ {now : ℕ} (small : now < 2 ^ 64) where
  send_multicast-IsSpaced :
      (b : List ℕ) (accepted : Bool) (s : Responder)
      → s.is_open ≡ true
      → IsSpaced now s
      → IsSpaced now (send_multicast b now accepted s)
  unfolding send_multicast
  send_multicast-IsSpaced b accepted s o v =
      let sent = record s {
        last_multicast = b;
        last_multicast_ms = now;
        log = multicast now b ∷ s.log;
      } in
      if-IsSpaced _ s _ v (λ e. if-IsSpaced (not accepted) s sent v (λ f. record {
        known = inr refl;
        shut = λ h. cc;
        before = omega arith;
        spaced = (apart e v.known, v.spaced);
      }))
    where
      apart :
          ((length b == length s.last_multicast)
              && (ltb (sub64 now s.last_multicast_ms) 1000 && bytes_eq b s.last_multicast))
            ≡ false
          → (latest s.log ≡ none) ⊎ (latest s.log ≡ some (s.last_multicast_ms, s.last_multicast))
          → Apart now b (latest s.log)
      apart e (inl h) = rw h tt
      apart e (inr h) =
          rw h (not_repeated b s.last_multicast s.last_multicast_ms now e v.before small)

  send_unicast-IsSpaced :
      (to b : List ℕ) (s : Responder) → IsSpaced now s → IsSpaced now (send_unicast to b s)
  unfolding send_unicast
  send_unicast-IsSpaced to b s v = record {
    known = v.known;
    shut = v.shut;
    before = v.before;
    spaced = v.spaced;
  }

  answer-IsSpaced :
      (p : Packet) (s : Responder)
      → s.is_open ≡ true
      → IsSpaced now s
      → IsSpaced now (answer p now s)
  unfolding answer
  answer-IsSpaced p s o v =
      let built = build_reply p.query (host_of s) (not (p.source_port == port)) max_send_packet in
      let packet = take built.0.length built.1 in
      if-IsSpaced (built.0.length == 0) s _ v (λ e.
        if-IsSpaced built.0.unicast (send_unicast p.source packet s)
          (send_multicast packet now p.accepted s) (send_unicast-IsSpaced p.source packet s v)
          (λ f. send_multicast-IsSpaced packet p.accepted s o v))

  handle_packets-IsSpaced :
      (n : ℕ) (ps : List Packet) (s : Responder)
      → s.is_open ≡ true
      → IsSpaced now s
      → IsSpaced now (handle_packets n ps now s)
  unfolding handle_packets
  handle_packets-IsSpaced zero ps s o v = v
  handle_packets-IsSpaced (suc n) [] s o v = v
  handle_packets-IsSpaced (suc n) (p ∷ ps) s o v = elim (Bool-cases (bytes_eq p.source s.address)) [
    | inl e ↦ rw e (handle_packets-IsSpaced n ps s o v)
    | inr e ↦ rw e (
        handle_packets-IsSpaced n ps (answer p now s) (answer-open p now s ∙ o)
          (answer-IsSpaced p s o v))
  ]

  announce-IsSpaced :
      (accepted : Bool) (s : Responder)
      → s.is_open ≡ true
      → IsSpaced now s
      → IsSpaced now (announce now accepted s)
  unfolding announce
  announce-IsSpaced accepted s o v =
      let built = build_announcement (host_of s) max_send_packet in
      let sent =
        if ltb 0 built.0 then send_multicast (take built.0 built.1) now accepted s else s in
      let c =
        if-IsSpaced (ltb 0 built.0) _ s
          (send_multicast-IsSpaced (take built.0 built.1) accepted s o v) (λ e. v) in
      if-IsSpaced (ltb 0 s.announcements_left && leb s.next_announce_ms now)
        (record sent {
          announcements_left = s.announcements_left - 1;
          next_announce_ms = add64 now announcement_interval_ms;
        })
        s (record { known = c.known; shut = c.shut; before = c.before; spaced = c.spaced }) (λ e. v)

poll-IsSpaced :
    (limit : ℕ) (p : Polled) (s : Responder)
    → limit ≤ p.now
    → p.now < 2 ^ 64
    → IsSpaced limit s
    → IsSpaced p.now (poll p s)
unfolding poll serve check_interface
poll-IsSpaced limit p s up small v =
    let later : IsSpaced p.now s = record {
      known = v.known;
      shut = v.shut;
      before = omega arith;
      spaced = v.spaced;
    } in
    let marked = record s { next_check_ms = add64 p.now interface_check_interval_ms } in
    let checked = check_interface p s in
    let c : IsSpaced p.now checked =
      if-IsSpaced (leb s.next_check_ms p.now)
        (refresh_interface p.now p.control p.link (socket_ready p.created p.steps) marked) s
        (refresh_interface-IsSpaced p.control p.link _ marked (record {
          known = later.known;
          shut = later.shut;
          before = later.before;
          spaced = later.spaced;
        }))
        (λ e. later) in
    if-IsSpaced (not checked.is_open) checked _ c (λ e.
      let o = not_shut checked.is_open e in
      handle_packets-IsSpaced small 16 p.packets _ (announce-open p.now p.accepted checked ∙ o)
        (announce-IsSpaced small p.accepted checked o c))
  where
    not_shut : (b : Bool) → not b ≡ false → b ≡ true
    not_shut true h = refl
    not_shut false h = cc

-- The clock does not go back between polls, and stays within 64 bits.
abbrev pub Rising : ℕ → List Polled → Type 0
Rising limit [] = Unit {0}
Rising limit (p ∷ ps) = (limit ≤ p.now) × (p.now < 2 ^ 64) × Rising p.now ps

run_on :
    (limit : ℕ) (ps : List Polled) (s : Responder)
    → Rising limit ps
    → IsSpaced limit s
    → Spaced (run ps s).log
unfolding run
run_on limit [] s h v = v.spaced
run_on limit (p ∷ ps) s h v = run_on p.now ps (poll p s) h.2 (poll-IsSpaced limit p s h.0 h.1 v)

-- In any polls of a new responder under a clock that does not go back, a packet that is sent to the
-- group directly after one of the same bytes on the same socket is sent a second later at the
-- earliest.
pub run-Spaced :
    (ps : List Polled) (host_label : List ℕ) → Rising 0 ps → Spaced (run ps (new host_label)).log
unfolding new
run-Spaced ps host_label h =
    run_on 0 ps _ h
      (record { known = inl refl; shut = λ e. refl; before = omega arith; spaced = tt })
