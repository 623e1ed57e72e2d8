-- ===== src/Mdns/Reply/Announced.antt =====
-- `buildAnnouncement` of src/http/mdns.cpp, where the packet has room.
use audiox.Prelude.{◌+◌, true, ◌≤◌, ◌≡◌, arith, length, ℕ, refl}
use audiox.Mdns.Writer.{Host, new, reverse_name}
use audiox.Mdns.Reply.{
  true, build_announcement, cache_flush, class_in, ttl_seconds, write_announcement, write_header,
}
use audiox.Mdns.Reply.Exact.{wire_announcement, wire_start}
use audiox.Mdns.Writer.Wire.Fitting.{
  IsFitting, WellNamed, then-IsFitting, u16-IsFitting, write_a-IsFitting, write_nsec-IsFitting,
  write_ptr-IsFitting,
}

start-IsFitting :
    (id questions answers additional : ℕ)
    → IsFitting
        (wire_start id questions answers additional)
        (write_header id questions answers additional)
unfolding write_header
start-IsFitting id questions answers additional =
    then-IsFitting
      (then-IsFitting
        (then-IsFitting
          (then-IsFitting (then-IsFitting (u16-IsFitting id) (u16-IsFitting 0x8400))
            (u16-IsFitting questions))
          (u16-IsFitting answers))
        (u16-IsFitting 0))
      (u16-IsFitting additional)

announcement-IsFitting :
    (host : Host)
    → WellNamed host.name
    → WellNamed (reverse_name host.address)
    → IsFitting (wire_announcement host) (write_announcement host)
unfolding write_announcement
announcement-IsFitting host h r =
    then-IsFitting
      (then-IsFitting
        (then-IsFitting (start-IsFitting 0 0 2 1)
          (write_a-IsFitting host (class_in + cache_flush) ttl_seconds h))
        (write_ptr-IsFitting host (class_in + cache_flush) ttl_seconds (reverse_name host.address) h
          r))
      (write_nsec-IsFitting host (class_in + cache_flush) ttl_seconds h)

-- Where the labels of the host's name and of its reverse name have 1 to 63 bytes, and the buffer has
-- room for the header and the three records: the announcement is exactly these, byte by byte, and
-- the length returned is theirs.
pub build_announcement_exact :
    (host : Host) (capacity : ℕ)
    → WellNamed host.name
    → WellNamed (reverse_name host.address)
    → length (wire_announcement host) ≤ capacity
    → build_announcement host capacity ≡ (length (wire_announcement host), wire_announcement host)
unfolding build_announcement
build_announcement_exact host capacity h r room =
    let fitting = announcement-IsFitting host h r in
    let ok : (write_announcement host (new capacity)).is_ok ≡ true =
      fitting.able (new capacity) refl (omega (arith, room)) in
    let out : (write_announcement host (new capacity)).out ≡ wire_announcement host =
      fitting.writing.appended (new capacity) ok in
    rw (build_announcement, ok, out) refl
