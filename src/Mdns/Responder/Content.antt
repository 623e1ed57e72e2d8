-- ===== src/Mdns/Responder/Content.antt =====
-- What the responder of src/http/mdns.cpp sends, and when.
pub mod Run
use audiox.Mdns.Writer.{Host}
use audiox.Mdns.Reply.{Reply, build_reply, build_announcement}
use audiox.Mdns.Reply.Exact.{
  IsReply, build_reply-IsReply, wire_announcement, build_announcement-cases,
}
use audiox.Mdns.Responder.{
  announcement_interval_ms, add64, leb, bytes_eq, suc, not, ltb, take, true, false, some, none, ℕ,
  Option, List, Bool, Event, opened, closed, multicast, unicast, Responder, new, close_socket,
  open_socket, announce_now, reopened, follow_link, must_reopen, note_running, pause, Link, Usable,
  usable, refresh_interface, send_multicast, send_unicast, Packet, host_of, answer, handle_packets,
  announce, Polled, check_interface, serve, poll, run, port, max_send_packet,
}
use audiox.Prelude.{
  ◌&&◌, length, ◌-◌, take-all, leb, ◌∙◌, ap, inr, zero, ltb→lt, bytes_eq, ◌||◌, ◌<◌, inl,
  Bool-cases, ◌==◌, subst, not, ltb, ◌∷◌, take, refl, ◌≤◌, true, false, [], ◌≡◌, none,
  if◌then◌else◌, arith, ℕ, Option, List, Bool,
}
use audiox.Prelude.Words.{add64}
use audiox.Mdns.Responder.Kept.{sent-open, answer-open, announce-open}

-- The address that the socket was opened for, while it is open.
abbrev pub up : List Event → Option (List ℕ)
up [] = none
up (opened a ∷ log) = some a
up (closed ∷ log) = none
up (multicast t b ∷ log) = up log
up (unicast to b ∷ log) = up log

-- Bytes that a host may send to the group, or to one address: its announcement, or the reply to a
-- packet that it got, which goes to the sender alone if the reply says so. Another port than 5353
-- makes a legacy querier.
pub data Sendable (Got : Packet → Type 0) (host : Host) (to : Option (List ℕ)) (b : List ℕ)
    : Type 0 where
  announcement : to ≡ none → b ≡ wire_announcement host → Sendable Got host to b
  reply :
      (p : Packet) (r : Reply) (out : List ℕ)
      → Got p
      → bytes_eq p.source host.address ≡ false
      → IsReply p.query host (not (p.source_port == 5353)) 1500 r out
      → to ≡ (if r.unicast then some p.source else none)
      → b ≡ take r.length out
      → Sendable Got host to b

abbrev pub FromHost :
    (Packet → Type 0) → List ℕ → Option (List ℕ) → Option (List ℕ) → List ℕ → Type 0
FromHost Got name none to b = ⊥
FromHost Got name (some a) to b = Sendable Got (record { name = name; address = a }) to b

abbrev pub Sound : (Packet → Type 0) → List ℕ → List Event → Type 0
Sound Got name [] = Unit {0}
Sound Got name (opened a ∷ log) = (up log ≡ none) × Sound Got name log
Sound Got name (closed ∷ log) = Sound Got name log
Sound Got name (multicast t b ∷ log) = FromHost Got name (up log) none b × Sound Got name log
Sound Got name (unicast to b ∷ log) = FromHost Got name (up log) (some to) b × Sound Got name log

pub record IsSound (Got : Packet → Type 0) (name : List ℕ) (s : Responder) : Type 0 where
  pub named : s.host_name ≡ name
  pub socket : up s.log ≡ (if s.is_open then some s.address else none)
  pub left : s.announcements_left ≤ (if s.is_open then 2 else 0)
  pub sound : Sound Got name s.log

module _ {Got : Packet → Type 0} {name : List ℕ} where
  close_socket-IsSound : (s : Responder) → IsSound Got name s → IsSound Got name (close_socket s)
  unfolding close_socket
  close_socket-IsSound s v = closes s.is_open refl
    where
      closes :
          (b : Bool)
          → s.is_open ≡ b
          → IsSound Got name (record s {
            is_open = false;
            interface_index = none;
            announcements_left = 0;
            last_multicast = [];
            log = if b then closed ∷ s.log else s.log;
          })
      closes true e = record { named = v.named; socket = refl; left = omega arith; sound = v.sound }
      closes false e = record {
        named = v.named;
        socket = rw e at (v.socket);
        left = omega arith;
        sound = v.sound;
      }

  pause-IsSound : (s : Responder) → IsSound Got name s → IsSound Got name (pause s)
  unfolding pause
  pause-IsSound s v = pauses s.is_open
    where
      pauses :
          (b : Bool)
          → IsSound Got name (record (if b then close_socket s else s) { is_running = false })
      pauses true =
          let c = close_socket-IsSound s v in
          record { named = c.named; socket = c.socket; left = c.left; sound = c.sound }
      pauses false = record { named = v.named; socket = v.socket; left = v.left; sound = v.sound }

  reopened-IsSound :
      (now : ℕ) (ready : Bool) (u : Usable) (s : Responder)
      → IsSound Got name s
      → IsSound Got name (reopened now ready u s)
  unfolding reopened open_socket close_socket
  reopened-IsSound now false u s v =
      let c = close_socket-IsSound s v in
      record { named = v.named; socket = c.socket; left = omega arith; sound = c.sound }
  reopened-IsSound now true u s v =
      let c = close_socket-IsSound s v in
      record { named = v.named; socket = refl; left = omega arith; sound = (c.socket, c.sound) }

  pub pick-IsSound :
      (b : Bool) (s t : Responder)
      → (b ≡ true → IsSound Got name s)
      → (b ≡ false → IsSound Got name t)
      → IsSound Got name (if b then s else t)
  pick-IsSound true s t f g = f refl
  pick-IsSound false s t f g = g refl

  note_running-IsSound :
      (now : ℕ) (running : Bool) (s : Responder)
      → IsSound Got name s
      → s.is_open ≡ true
      → IsSound Got name (note_running now running s)
  unfolding note_running
  note_running-IsSound now running s v e =
      let plugged = record (announce_now now s) { is_running = running } in
      pick-IsSound (running && not s.is_running) plugged (record s { is_running = running })
        (λ f. record {
          named = v.named;
          socket = v.socket;
          left = rw e (omega arith);
          sound = v.sound;
        })
        (λ f. record { named = v.named; socket = v.socket; left = v.left; sound = v.sound })

  follow_link-IsSound :
      (now : ℕ) (ready : Bool) (u : Usable) (s : Responder)
      → IsSound Got name s
      → IsSound Got name (follow_link now ready u s)
  unfolding follow_link must_reopen
  follow_link-IsSound now ready u s v =
      pick-IsSound (must_reopen u s) (reopened now ready u s) (note_running now u.running s)
        (λ e. reopened-IsSound now ready u s v)
        (λ e. note_running-IsSound now u.running s v (is_open_of s.is_open _ e))
    where
      is_open_of : (b c : Bool) → (not b || c) ≡ false → b ≡ true
      is_open_of true c h = refl
      is_open_of false c h = cc

  pub refresh_interface-IsSound :
      (now : ℕ) (control : Bool) (l : Link) (ready : Bool) (s : Responder)
      → IsSound Got name s
      → IsSound Got name (refresh_interface now control l ready s)
  unfolding refresh_interface
  refresh_interface-IsSound now false l ready s v = v
  refresh_interface-IsSound now true l ready s v = follows (usable l)
    where
      follows :
          (o : Option Usable)
          → IsSound Got name (elim o [ none ↦ pause s | some u ↦ follow_link now ready u s ])
      follows none = pause-IsSound s v
      follows (some u) = follow_link-IsSound now ready u s v
