-- ===== src/Mdns/Responder/Kept.antt =====
-- What a packet that is sent leaves of the socket.
use audiox.Mdns.Reply.{build_announcement}
use audiox.Mdns.Responder.{
  leb, announcement_interval_ms, add64, take, ltb, List, ℕ, Bool, Responder, Packet, send_multicast,
  send_unicast, host_of, answer, announce, max_send_packet,
}
use audiox.Prelude.{
  refl, false, true, leb, ◌&&◌, ◌-◌, take, ltb, if◌then◌else◌, arith, ◌≡◌, List, ℕ, Bool,
}
use audiox.Prelude.Words.{add64}

pub answer-open : (p : Packet) (now : ℕ) (s : Responder) → (answer p now s).is_open ≡ s.is_open
unfolding answer send_unicast send_multicast
answer-open p now s = ground arith

pub sent-open :
    (b : Bool) (packet : List ℕ) (now : ℕ) (accepted : Bool) (s : Responder)
    → (if b then send_multicast packet now accepted s else s).is_open ≡ s.is_open
unfolding send_multicast
sent-open b packet now accepted s = ground arith

pub announce-open :
    (now : ℕ) (accepted : Bool) (s : Responder) → (announce now accepted s).is_open ≡ s.is_open
unfolding announce
announce-open now accepted s = due (ltb 0 s.announcements_left && leb s.next_announce_ms now)
  where
    due :
        (b : Bool)
        → (if b
            then record (if ltb 0 (build_announcement (host_of s) max_send_packet).0
                then send_multicast
                    (take
                      (build_announcement (host_of s) max_send_packet).0
                      (build_announcement (host_of s) max_send_packet).1)
                    now
                    accepted
                    s
                else s) {
                  announcements_left = s.announcements_left - 1;
                  next_announce_ms = add64 now announcement_interval_ms;
                }
            else s).is_open
          ≡ s.is_open
    due true = sent-open _ _ now accepted s
    due false = refl
