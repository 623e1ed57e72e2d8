-- ===== src/Mdns/Responder.antt =====
-- The class `Responder`: the state of its socket, the schedule of announcements and the answers.
-- What ioctl, socket, sendto and recvfrom answer are arguments; `log` keeps what was opened, closed
-- and sent, newest first, which the source has no field for.
pub mod Kept
pub mod Spacing
pub mod Content
use audiox.Prelude.Words.{add64, sub64}
use audiox.Mdns.Writer.{Host}
use audiox.Mdns.Reply.{build_reply, build_announcement}
use Prim.Native.Nat.{suc, ℕ}
use audiox.Prelude.{
  ◌-◌, codes, ◌||◌, ◌==◌, ◌++◌, ◌&&◌, zero, [], ◌∷◌, true, take, some, not, none, ltb, length, leb,
  bytes_eq, ℕ, if◌then◌else◌, false, Option, List, Bool,
}

abbrev pub port : ℕ
port = 5353

abbrev pub max_send_packet : ℕ
max_send_packet = 1500

abbrev pub announcement_count : ℕ
announcement_count = 2

abbrev pub announcement_interval_ms : ℕ
announcement_interval_ms = 1000

abbrev pub interface_check_interval_ms : ℕ
interface_check_interval_ms = 1000

abbrev pub multicast_repeat_ms : ℕ
multicast_repeat_ms = 1000

abbrev pub max_packets_per_poll : ℕ
max_packets_per_poll = 16

-- The socket opened for an address, or closed; a packet to the group at a time, or to a querier.
pub data Event : Type 0 where
  opened : List ℕ → Event
  closed : Event
  multicast : ℕ → List ℕ → Event
  unicast : List ℕ → List ℕ → Event

-- An address is four bytes; the part of `last_multicast` that counts is kept.
pub record Responder : Type 0 where
  pub host_name : List ℕ
  pub is_open : Bool
  pub interface_index : Option ℕ
  pub address : List ℕ
  pub is_running : Bool
  pub failure_logged : Bool
  pub next_check_ms : ℕ
  pub next_announce_ms : ℕ
  pub announcements_left : ℕ
  pub last_multicast_ms : ℕ
  pub last_multicast : List ℕ
  pub log : List Event

unfoldable pub new : List ℕ → Responder
new host_label = record {
  host_name = take 255 (host_label ++ codes ".local");
  is_open = false;
  interface_index = none;
  address = 0 ∷ 0 ∷ 0 ∷ 0 ∷ [];
  is_running = false;
  failure_logged = false;
  next_check_ms = 0;
  next_announce_ms = 0;
  announcements_left = 0;
  last_multicast_ms = 0;
  last_multicast = [];
  log = [];
}

unfoldable pub close_socket : Responder → Responder
close_socket s = record s {
  is_open = false;
  interface_index = none;
  announcements_left = 0;
  last_multicast = [];
  log = if s.is_open then closed ∷ s.log else s.log;
}

-- Whether socket() works, and each of the calls that set it up, up to the first that fails.
unfoldable pub socket_ready : Bool → List Bool → Bool
socket_ready false steps = false
socket_ready true [] = true
socket_ready true (step ∷ steps) = socket_ready step steps

unfoldable pub open_socket : Bool → ℕ → Responder → Responder
open_socket false index s = record s { failure_logged = true }
open_socket true index s = record s {
  is_open = true;
  interface_index = some index;
  failure_logged = false;
  log = opened s.address ∷ s.log;
}

-- The interface as ioctl() shows it: its index, the flags IFF_UP and IFF_RUNNING, and its address.
pub record Link : Type 0 where
  pub index : Option ℕ
  pub flags : Option (Bool × Bool)
  pub address : Option (List ℕ)

-- An interface that is up and has an address other than 0.0.0.0.
pub record Usable : Type 0 where
  pub index : ℕ
  pub running : Bool
  pub address : List ℕ

unfoldable pub with_address : ℕ → Bool → List ℕ → Option Usable
with_address index running a =
    if bytes_eq a (0 ∷ 0 ∷ 0 ∷ 0 ∷ [])
    then none
    else some (record { index = index; running = running; address = a })

unfoldable pub usable_at : ℕ → Option (Bool × Bool) → Option (List ℕ) → Option Usable
usable_at index none a = none
usable_at index (some (up, running)) none = none
usable_at index (some (up, running)) (some a) = if up then with_address index running a else none

unfoldable pub usable : Link → Option Usable
usable l = elim l.index [ none ↦ none | some index ↦ usable_at index l.flags l.address ]

unfoldable pub pause : Responder → Responder
pause s = record (if s.is_open then close_socket s else s) { is_running = false }

abbrev pub announce_now : ℕ → Responder → Responder
announce_now now s = record s { announcements_left = announcement_count; next_announce_ms = now }

abbrev pub same_index : ℕ → Option ℕ → Bool
same_index i none = false
same_index i (some j) = i == j

unfoldable pub reopened : ℕ → Bool → Usable → Responder → Responder
reopened now ready u s =
    let t = open_socket ready u.index (record (close_socket s) { address = u.address }) in
    if ready then record (announce_now now t) { is_running = u.running } else t

unfoldable pub must_reopen : Usable → Responder → Bool
must_reopen u s =
    not s.is_open
    || (not (same_index u.index s.interface_index) || not (bytes_eq u.address s.address))

-- A host that was just plugged in is told at once.
unfoldable pub note_running : ℕ → Bool → Responder → Responder
note_running now running s =
    if running && not s.is_running
    then record (announce_now now s) { is_running = running }
    else record s { is_running = running }

unfoldable pub follow_link : ℕ → Bool → Usable → Responder → Responder
follow_link now ready u s =
    if must_reopen u s then reopened now ready u s else note_running now u.running s

-- `control`: whether the socket for ioctl() opens.
unfoldable pub refresh_interface : ℕ → Bool → Link → Bool → Responder → Responder
refresh_interface now control link ready s =
    if not control
    then s
    else elim (usable link) [ none ↦ pause s | some u ↦ follow_link now ready u s ]

-- `accepted`: whether sendto() works.
unfoldable pub send_multicast : List ℕ → ℕ → Bool → Responder → Responder
send_multicast packet now accepted s =
    if (length packet == length s.last_multicast)
      && (ltb (sub64 now s.last_multicast_ms) multicast_repeat_ms
          && bytes_eq packet s.last_multicast)
    then s
    else if not accepted
    then s
    else record s {
      last_multicast = packet;
      last_multicast_ms = now;
      log = multicast now packet ∷ s.log;
    }

-- A packet that recvfrom() gives: where it came from, its bytes, and whether the answer can be sent.
pub record Packet : Type 0 where
  pub source : List ℕ
  pub source_port : ℕ
  pub query : List ℕ
  pub accepted : Bool

abbrev pub host_of : Responder → Host
host_of s = record { name = s.host_name; address = s.address }

unfoldable pub send_unicast : List ℕ → List ℕ → Responder → Responder
send_unicast to packet s = record s { log = unicast to packet ∷ s.log }

unfoldable pub answer : Packet → ℕ → Responder → Responder
answer p now s =
    let (r, out) = build_reply p.query (host_of s) (not (p.source_port == port)) max_send_packet in
    if r.length == 0
    then s
    else if r.unicast
    then send_unicast p.source (take r.length out) s
    else send_multicast (take r.length out) now p.accepted s

unfoldable pub handle_packets : ℕ → List Packet → ℕ → Responder → Responder
handle_packets zero ps now s = s
handle_packets (suc n) [] now s = s
handle_packets (suc n) (p ∷ ps) now s =
    handle_packets n ps now (if bytes_eq p.source s.address then s else answer p now s)

unfoldable pub announce : ℕ → Bool → Responder → Responder
announce now accepted s =
    let (n, out) = build_announcement (host_of s) max_send_packet in
    if ltb 0 s.announcements_left && leb s.next_announce_ms now
    then record (if ltb 0 n then send_multicast (take n out) now accepted s else s) {
      announcements_left = s.announcements_left - 1;
      next_announce_ms = add64 now announcement_interval_ms;
    }
    else s

-- What the system answers in one poll.
pub record Polled : Type 0 where
  pub now : ℕ
  pub control : Bool
  pub link : Link
  pub created : Bool
  pub steps : List Bool
  pub accepted : Bool
  pub packets : List Packet

unfoldable pub check_interface : Polled → Responder → Responder
check_interface p s =
    if leb s.next_check_ms p.now
    then refresh_interface p.now p.control p.link (socket_ready p.created p.steps)
        (record s { next_check_ms = add64 p.now interface_check_interval_ms })
    else s

unfoldable pub serve : Polled → Responder → Responder
serve p s =
    if not s.is_open
    then s
    else handle_packets max_packets_per_poll p.packets p.now (announce p.now p.accepted s)

unfoldable pub poll : Polled → Responder → Responder
poll p s = serve p (check_interface p s)

unfoldable pub run : List Polled → Responder → Responder
run [] s = s
run (p ∷ ps) s = run ps (poll p s)
