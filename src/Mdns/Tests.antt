-- ===== src/Mdns/Tests.antt =====
-- Names in small packets.
use audiox.Mdns.Responder.{
  Polled, refresh_interface, new, run, announce, usable, usable_at, with_address, follow_link,
  must_reopen, reopened, open_socket, close_socket,
}
use audiox.Mdns.Responder.Content.{IsSound}
use audiox.Mdns.Responder.Content.Run.{Received, run-IsSound}
use audiox.Mdns.Responder.Spacing.{Spaced}
use audiox.Mdns.Responder.Spacing.Run.{run-Spaced}
use audiox.Mdns.Name.{
  read_name, read_loop, name_fuel, turn, follow, take_label, all_plain, name, go_on,
}
use audiox.Mdns.Name.Ends.{Answered, read_name-Answered}
use audiox.Prelude.{true, length, arith, false, refl, some, codes, ◌≡◌, ℕ, [], ◌∷◌, none, List}
use audiox.Mdns.Reply.Announced.{build_announcement_exact}
use audiox.Mdns.Writer.Wire.{wire_labels}
use audiox.Mdns.Writer.Wire.Fitting.{WellNamed}
use audiox.Prelude.Decimal.{decimal, decimal_digits}
use audiox.Mdns.Reply.{
  when, write_questions, write_header, write_reply, same_name, note_question, question_loop,
  reply_to, build_reply, build_announcement,
}
use audiox.Mdns.Reply.Exact.{wire_announcement, build_reply-IsReply, IsReply}
use audiox.Mdns.Writer.{
  reverse_name, patch16, patch_length, u32, u16, u8, bytes, labels, write_labels, write_name,
  write_record_header, write_ptr, write_nsec, write_a, Host,
}

-- The label "a", and a pointer back to it.
abbrev looping : List ℕ
looping = 1 ∷ b'a' ∷ 0xc0 ∷ 0 ∷ []

-- The pointer points strictly backwards, and the loop still comes round to it.
comes_round :
    (turn looping 256 0 none [] ≡ go_on 2 none (b'a' ∷ []))
    × (turn looping 256 2 none (b'a' ∷ []) ≡ go_on 0 (some 4) (b'a' ∷ []))
unfolding turn follow take_label all_plain
comes_round = (refl, refl)

looping_example : Answered 256 (read_name looping 0 256)
looping_example = read_name-Answered looping 0 256

compressed : read_name (1 ∷ b'a' ∷ 0 ∷ 1 ∷ b'b' ∷ 0xc0 ∷ 0 ∷ []) 3 256 ≡ name (codes "b.a") 7
unfolding read_name read_loop name_fuel turn follow take_label all_plain
compressed = refl

abbrev host : Host
host = record { name = codes "b"; address = 10 ∷ 0 ∷ 0 ∷ 1 ∷ [] }

-- Which address has "b"?
abbrev address_query : List ℕ
address_query = 0 ∷ 7 ∷ 0 ∷ 0 ∷ 0 ∷ 1 ∷ 0 ∷ 0 ∷ 0 ∷ 0 ∷ 0 ∷ 0 ∷ 1 ∷ b'b' ∷ 0 ∷ 0 ∷ 1 ∷ 0 ∷ 1 ∷ []

reply_length : (build_reply address_query host false 512).0.length ≡ 48
unfolding build_reply reply_to question_loop note_question same_name read_name read_loop name_fuel
    turn follow take_label all_plain write_reply write_header write_questions when write_a
    write_nsec write_ptr write_record_header write_name write_labels labels bytes u8 u16 u32
    patch_length patch16
reply_length = refl

answer_example :
    IsReply address_query host false 512
      (build_reply address_query host false 512).0
      (build_reply address_query host false 512).1
answer_example = build_reply-IsReply address_query host false 512 (omega (arith, reply_length))

host_named : WellNamed host.name × WellNamed (reverse_name host.address)
unfolding labels reverse_name decimal decimal_digits
host_named = (omega arith, omega arith)

announcement_length : length (wire_announcement host) ≡ 84
unfolding labels reverse_name decimal decimal_digits wire_labels
announcement_length = refl

announcement_example :
    build_announcement host 512 ≡ (length (wire_announcement host), wire_announcement host)
announcement_example =
    build_announcement_exact host 512 host_named.0 host_named.1 (omega (arith, announcement_length))

-- The interface comes up, and a querier asks for the address.
abbrev first_poll : Polled
first_poll = record {
  now = 5000;
  control = true;
  link = record { index = some 3; flags = some (true, true); address = some (10 ∷ 0 ∷ 0 ∷ 1 ∷ []) };
  created = true;
  steps = true ∷ true ∷ [];
  accepted = true;
  packets =
      record {
        source = 10 ∷ 0 ∷ 0 ∷ 2 ∷ [];
        source_port = 5353;
        query = address_query;
        accepted = true;
      }
      ∷ [];
}

abbrev second_poll : Polled
second_poll = record first_poll { now = 5400 }

opened_once : (refresh_interface 5000 true first_poll.link true (new (codes "b"))).is_open ≡ true
unfolding new refresh_interface usable usable_at with_address follow_link must_reopen reopened
    open_socket close_socket
opened_once = refl

one_left :
    (announce 5000 true
      (refresh_interface 5000 true first_poll.link true (new (codes "b")))).announcements_left
    ≡ 1
unfolding new refresh_interface usable usable_at with_address follow_link must_reopen reopened
    open_socket close_socket announce
one_left = refl

content_example :
    IsSound
      (Received (first_poll ∷ second_poll ∷ []))
      (new (codes "b")).host_name
      (run (first_poll ∷ second_poll ∷ []) (new (codes "b")))
content_example = run-IsSound (first_poll ∷ second_poll ∷ []) (codes "b")

spacing_example : Spaced (run (first_poll ∷ second_poll ∷ []) (new (codes "b"))).log
spacing_example =
    run-Spaced (first_poll ∷ second_poll ∷ []) (codes "b")
      (omega arith, omega arith, (omega arith, omega arith, tt))
