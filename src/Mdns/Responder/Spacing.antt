-- ===== src/Mdns/Responder/Spacing.antt =====
-- How soon the responder of src/http/mdns.cpp repeats a packet to the group.
pub mod Run
use audiox.Prelude.{zero, ◌∙◌, ◌-◌, leb, Bool-cases, take, length}
use audiox.Prelude.Words.{add64, sub64}
use audiox.Prelude.Text.{bytes_eq_refl}
use audiox.Mdns.Reply.{build_reply, build_announcement}
use audiox.Mdns.Responder.{
  announcement_interval_ms, socket_ready, leb, interface_check_interval_ms, take, suc, add64,
  bytes_eq, true, not, ltb, some, none, false, Option, Bool, ℕ, List, Event, opened, closed,
  multicast, unicast, Responder, new, close_socket, open_socket, announce_now, reopened,
  follow_link, note_running, must_reopen, pause, Link, Usable, usable, refresh_interface,
  send_multicast, send_unicast, Packet, host_of, answer, handle_packets, announce, Polled,
  check_interface, serve, poll, run, port, max_send_packet,
}
use audiox.Prelude.{
  ltb→le, arith, refl, inr, ==_refl, ◌≤◌, ◌∷◌, bytes_eq, ◌⊎◌, ◌+◌, true, not, ltb, if◌then◌else◌,
  ◌^◌, ◌==◌, ◌&&◌, none, inl, false, ◌≡◌, ◌<◌, length, [], Option, Bool, ℕ, List,
}
use audiox.Mdns.Responder.Kept.{announce-open, answer-open}

-- The last packet to the group since the socket was opened, with its time.
abbrev pub latest : List Event → Option (ℕ × List ℕ)
latest [] = none
latest (opened a ∷ log) = none
latest (closed ∷ log) = none
latest (multicast t b ∷ log) = some (t, b)
latest (unicast to b ∷ log) = latest log

-- The same bytes are sent again a second later at the earliest.
abbrev pub Apart : ℕ → List ℕ → Option (ℕ × List ℕ) → Type 0
Apart t b none = Unit {0}
Apart t b (some (u, c)) = b ≡ c → u + 1000 ≤ t

abbrev pub Spaced : List Event → Type 0
Spaced [] = Unit {0}
Spaced (opened a ∷ log) = Spaced log
Spaced (closed ∷ log) = Spaced log
Spaced (multicast t b ∷ log) = Apart t b (latest log) × Spaced log
Spaced (unicast to b ∷ log) = Spaced log

pub record IsSpaced (now : ℕ) (s : Responder) : Type 0 where
  pub known : (latest s.log ≡ none) ⊎ (latest s.log ≡ some (s.last_multicast_ms, s.last_multicast))
  pub shut : s.is_open ≡ false → latest s.log ≡ none
  pub before : s.last_multicast_ms ≤ now
  pub spaced : Spaced s.log

module _ {now : ℕ} where
  close_socket-IsSpaced :
      (s : Responder)
      → IsSpaced now s
      → IsSpaced now (close_socket s) × (latest (close_socket s).log ≡ none)
  unfolding close_socket
  close_socket-IsSpaced s v = closes s.is_open refl
    where
      left : Bool → Responder
      left b = record s {
        is_open = false;
        interface_index = none;
        announcements_left = 0;
        last_multicast = [];
        log = if b then closed ∷ s.log else s.log;
      }

      closes : (b : Bool) → s.is_open ≡ b → IsSpaced now (left b) × (latest (left b).log ≡ none)
      closes true e = (
        record { known = inl refl; shut = λ h. refl; before = v.before; spaced = v.spaced },
        refl,
      )
      closes false e = (
        record {
          known = inl (v.shut e);
          shut = λ h. v.shut e;
          before = v.before;
          spaced = v.spaced;
        },
        v.shut e,
      )

  pub if-IsSpaced :
      (b : Bool) (s t : Responder)
      → IsSpaced now s
      → (b ≡ false → IsSpaced now t)
      → IsSpaced now (if b then s else t)
  if-IsSpaced true s t f g = f
  if-IsSpaced false s t f g = g refl

  pause-IsSpaced : (s : Responder) → IsSpaced now s → IsSpaced now (pause s)
  unfolding pause
  pause-IsSpaced s v =
      let c = if-IsSpaced s.is_open (close_socket s) s (close_socket-IsSpaced s v).0 (λ e. v) in
      record { known = c.known; shut = c.shut; before = c.before; spaced = c.spaced }

  reopened-IsSpaced :
      (ready : Bool) (u : Usable) (s : Responder)
      → IsSpaced now s
      → IsSpaced now (reopened now ready u s)
  unfolding reopened open_socket close_socket
  reopened-IsSpaced false u s v =
      let c = close_socket-IsSpaced s v in
      record { known = inl c.1; shut = λ h. c.1; before = c.0.before; spaced = c.0.spaced }
  reopened-IsSpaced true u s v =
      let c = close_socket-IsSpaced s v in
      record { known = inl refl; shut = λ h. refl; before = c.0.before; spaced = c.0.spaced }

  note_running-IsSpaced :
      (running : Bool) (s : Responder) → IsSpaced now s → IsSpaced now (note_running now running s)
  unfolding note_running
  note_running-IsSpaced running s v =
      if-IsSpaced (running && not s.is_running)
        (record (announce_now now s) { is_running = running }) (record s { is_running = running })
        (record { known = v.known; shut = v.shut; before = v.before; spaced = v.spaced })
        (λ e. record { known = v.known; shut = v.shut; before = v.before; spaced = v.spaced })

  follow_link-IsSpaced :
      (ready : Bool) (u : Usable) (s : Responder)
      → IsSpaced now s
      → IsSpaced now (follow_link now ready u s)
  unfolding follow_link
  follow_link-IsSpaced ready u s v =
      if-IsSpaced (must_reopen u s) (reopened now ready u s) (note_running now u.running s)
        (reopened-IsSpaced ready u s v) (λ e. note_running-IsSpaced u.running s v)

  pub refresh_interface-IsSpaced :
      (control : Bool) (l : Link) (ready : Bool) (s : Responder)
      → IsSpaced now s
      → IsSpaced now (refresh_interface now control l ready s)
  unfolding refresh_interface
  refresh_interface-IsSpaced false l ready s v = v
  refresh_interface-IsSpaced true l ready s v = follows (usable l)
    where
      follows :
          (o : Option Usable)
          → IsSpaced now (elim o [ none ↦ pause s | some u ↦ follow_link now ready u s ])
      follows none = pause-IsSpaced s v
      follows (some u) = follow_link-IsSpaced ready u s v
