-- ===== src/Mdns/Reply/Exact.antt =====
-- What `buildReply` and `buildAnnouncement` of src/http/mdns.cpp put into a packet.
use audiox.Mdns.Reply.Questions.{question_loop-AtMost, AllAbout}
use audiox.Prelude.{
  ap, ◌⊎◌, ◌/◌, inr, inl, bit_and, Bool-cases, ◌<◌, min, ◌||◌, ◌==◌, ltb, ◌%◌, not, ◌≡◌, ◌+◌, arith,
  ◌≤◌, ◌++◌, length, if◌then◌else◌, ℕ, List, Bool, ◌∷◌, [], true, false, refl, zero, suc,
}
use audiox.Mdns.Writer.{reverse_name, new, Writer, Host}
use audiox.Mdns.Reply.{
  write_announcement, build_announcement, bit_and, nothing_wanted, header_size, max_questions,
  reply_to, min, build_reply, Reply, ltb, not, count_true, read16, cache_flush, class_in,
  ttl_seconds, legacy_ttl_seconds, ℕ, write_reply, write_questions, write_header, when,
  question_loop, List, Bool, Question, Wanted,
}
use audiox.Mdns.Writer.Wire.{
  write_name-IsWriting, u16-IsWriting, then-IsWriting, nothing-IsWriting, wire_name, be16,
  IsWriting, IsBounded,
}
use audiox.Mdns.Writer.Wire.Records.{
  wire_ptr, wire_nsec, wire_a, write_ptr-IsWriting, write_nsec-IsWriting, write_a-IsWriting,
}

abbrev pub wire_start : ℕ → ℕ → ℕ → ℕ → List ℕ
wire_start id questions answers additional =
    ((((be16 id ++ be16 0x8400) ++ be16 questions) ++ be16 answers) ++ be16 0) ++ be16 additional

unfoldable pub wire_questions : List Question → List ℕ
wire_questions [] = []
wire_questions (q ∷ qs) =
    ((wire_name q.text ++ be16 q.type) ++ be16 q.record_class) ++ wire_questions qs

unfoldable pub wire_when : Bool → List ℕ → List ℕ
wire_when true bs = bs
wire_when false bs = []

-- The packet: its header, for a legacy resolver the questions, the answers, and what else the host
-- has.
unfoldable pub wire_reply : List ℕ → Host → List ℕ → Bool → Wanted → List ℕ
wire_reply query host reverse legacy a =
    let ttl = if legacy then legacy_ttl_seconds else ttl_seconds in
    let record_class = if legacy then class_in else class_in + cache_flush in
    (((((wire_start (if legacy then read16 query 0 else 0) (if legacy then length a.answered else 0)
                (count_true a.want_a + count_true a.want_nsec + count_true a.want_ptr)
                (count_true (not a.want_a) + count_true (not a.want_nsec))
              ++ wire_when legacy (wire_questions a.answered))
            ++ wire_when a.want_a (wire_a host record_class ttl))
          ++ wire_when a.want_nsec (wire_nsec host record_class ttl))
        ++ wire_when a.want_ptr (wire_ptr host reverse record_class ttl))
      ++ wire_when (not a.want_a) (wire_a host record_class ttl))
    ++ wire_when (not a.want_nsec) (wire_nsec host record_class ttl)

start-IsWriting :
    (id questions answers additional : ℕ)
    → IsWriting
        (wire_start id questions answers additional)
        (write_header id questions answers additional)
unfolding write_header
start-IsWriting id questions answers additional =
    then-IsWriting
      (then-IsWriting
        (then-IsWriting
          (then-IsWriting (then-IsWriting (u16-IsWriting id) (u16-IsWriting 0x8400))
            (u16-IsWriting questions))
          (u16-IsWriting answers))
        (u16-IsWriting 0))
      (u16-IsWriting additional)

when-IsWriting :
    {bs : List ℕ} {f : Writer → Writer} (c : Bool)
    → IsWriting bs f
    → IsWriting (wire_when c bs) (when c f)
unfolding wire_when when
when-IsWriting true p = p
when-IsWriting false p = nothing-IsWriting

questions-IsWriting : (qs : List Question) → IsWriting (wire_questions qs) (write_questions qs)
unfolding wire_questions write_questions
questions-IsWriting [] = nothing-IsWriting
questions-IsWriting (q ∷ qs) =
    then-IsWriting
      (then-IsWriting (then-IsWriting (write_name-IsWriting q.text) (u16-IsWriting q.type))
        (u16-IsWriting q.record_class))
      (questions-IsWriting qs)

pub write_reply-IsWriting :
    (query : List ℕ) (host : Host) (reverse : List ℕ) (legacy : Bool) (a : Wanted)
    → IsWriting (wire_reply query host reverse legacy a) (write_reply query host reverse legacy a)
unfolding wire_reply write_reply
write_reply-IsWriting query host reverse legacy a =
    let ttl = if legacy then legacy_ttl_seconds else ttl_seconds in
    let record_class = if legacy then class_in else class_in + cache_flush in
    let with_a = write_a-IsWriting host record_class ttl in
    let with_nsec = write_nsec-IsWriting host record_class ttl in
    then-IsWriting
      (then-IsWriting
        (then-IsWriting
          (then-IsWriting
            (then-IsWriting
              (then-IsWriting (start-IsWriting _ _ _ _)
                (when-IsWriting legacy (questions-IsWriting a.answered)))
              (when-IsWriting a.want_a with_a))
            (when-IsWriting a.want_nsec with_nsec))
          (when-IsWriting a.want_ptr (write_ptr-IsWriting host record_class ttl reverse)))
        (when-IsWriting (not a.want_a) with_a))
      (when-IsWriting (not a.want_nsec) with_nsec)

abbrev pub wire_announcement : Host → List ℕ
wire_announcement host =
    ((wire_start 0 0 2 1 ++ wire_a host (class_in + cache_flush) ttl_seconds)
      ++ wire_ptr host (reverse_name host.address) (class_in + cache_flush) ttl_seconds)
    ++ wire_nsec host (class_in + cache_flush) ttl_seconds

pub announcement-IsWriting :
    (host : Host) → IsWriting (wire_announcement host) (write_announcement host)
unfolding write_announcement
announcement-IsWriting host =
    then-IsWriting
      (then-IsWriting
        (then-IsWriting (start-IsWriting 0 0 2 1)
          (write_a-IsWriting host (class_in + cache_flush) ttl_seconds))
        (write_ptr-IsWriting host (class_in + cache_flush) ttl_seconds (reverse_name host.address)))
      (write_nsec-IsWriting host (class_in + cache_flush) ttl_seconds)

new-IsBounded : (c : ℕ) → IsBounded c (new c)
new-IsBounded c = record { same_capacity = refl; room = omega arith }

first_test : (x y : Bool) → (not x || y) ≡ false → x ≡ true
first_test true y h = refl
first_test false y h = absurd cc

positive : (n : ℕ) → (n == 0) ≡ false → 0 < n
positive zero h = absurd cc
positive (suc n) h = omega arith

-- A reply to `query`, for what its questions ask.
pub record IsReply (query : List ℕ) (host : Host) (legacy : Bool) (capacity : ℕ) (r : Reply)
    (packet : List ℕ) : Type 0 where
  pub asked : Wanted
  pub loop :
      asked
      ≡ question_loop
          (min (read16 query 4) max_questions)
          query
          host
          (reverse_name host.address)
          header_size
          nothing_wanted
  pub is_query : (bit_and (read16 query 2) 0x8000 == 0) ≡ true
  pub some_question : 0 < length asked.answered
  pub about : AllAbout host.name (reverse_name host.address) asked.answered
  pub no_overflow : length asked.answered ≤ max_questions
  pub packet_exact : packet ≡ wire_reply query host (reverse_name host.address) legacy asked
  pub whole_packet : r.length ≡ length packet
  pub room : length packet ≤ capacity
  pub unicast_exact : r.unicast ≡ (legacy || not asked.multicast_requested)

module _ (query : List ℕ) (host : Host) (legacy : Bool) (capacity : ℕ) where
  -- Where there is a reply, the packet is a query with a question that is answered; every such question
  -- has the class IN or ANY and asks, in letters of either case, for the host's name, or for the pointer
  -- or all records of its reverse name. The reply is, byte by byte, the header, the questions of a legacy resolver and the records with their exact
  -- lengths; it fits the buffer, and at most 32 questions are stored.
  pub build_reply-IsReply :
      0 < (build_reply query host legacy capacity).0.length
      → IsReply query host legacy capacity
          (build_reply query host legacy capacity).0
          (build_reply query host legacy capacity).1
  unfolding build_reply reply_to
  build_reply-IsReply h =
      let flags = read16 query 2 in
      let reverse = reverse_name host.address in
      let a =
        question_loop (min (read16 query 4) max_questions) query host reverse header_size
          nothing_wanted in
      let w = write_reply query host reverse legacy a (new capacity) in
      elim (Bool-cases (ltb (length query) header_size)) [
        | inl e ↦
            let none_sent : (build_reply query host legacy capacity).0.length ≡ 0 =
              rw (build_reply, e) refl in
            absurd (omega (arith, none_sent))
        | inr e ↦
            elim (Bool-cases (not (bit_and flags 0x8000 == 0) || not (flags / 2048 % 16 == 0))) [
              | inl f ↦
                  let none_sent : (build_reply query host legacy capacity).0.length ≡ 0 =
                    rw (build_reply, e, f) refl in
                  absurd (omega (arith, none_sent))
              | inr f ↦ elim (Bool-cases (length a.answered == 0)) [
                | inl g ↦
                    let none_sent : (build_reply query host legacy capacity).0.length ≡ 0 =
                      rw (build_reply, e, f, reply_to, g) refl in
                    absurd (omega (arith, none_sent))
                | inr g ↦ elim (Bool-cases w.is_ok) [
                  | inr p ↦
                      let none_sent : (build_reply query host legacy capacity).0.length ≡ 0 =
                        rw (build_reply, e, f, reply_to, g, p) refl in
                      absurd (omega (arith, none_sent))
                  | inl p ↦
                      let stored =
                        question_loop-AtMost (min (read16 query 4) max_questions) 0 query host
                          reverse header_size nothing_wanted
                          record { few = omega arith; about = tt } in
                      let writing = write_reply-IsWriting query host reverse legacy a in
                      rw (build_reply, e, f, reply_to, g, p)
                        record {
                          asked = a;
                          loop = refl;
                          is_query = first_test _ _ f;
                          some_question = positive _ g;
                          about = stored.about;
                          no_overflow = omega (arith, stored.few);
                          packet_exact = writing.appended (new capacity) p;
                          whole_packet = refl;
                          room =
                              (writing.bounded capacity (new capacity)
                                (new-IsBounded capacity)).room;
                          unicast_exact = refl;
                        }
                ]
              ]
            ]
      ]

-- An announcement is given up, or whole.
pub build_announcement-cases :
    (host : Host) (capacity : ℕ)
    → ((build_announcement host capacity).0 ≡ 0)
      ⊎ (((build_announcement host capacity).1 ≡ wire_announcement host)
          × ((build_announcement host capacity).0 ≡ length (wire_announcement host))
          × (length (wire_announcement host) ≤ capacity))
unfolding build_announcement
build_announcement-cases host capacity =
    let writing = announcement-IsWriting host in
    let w = write_announcement host (new capacity) in
    elim (Bool-cases w.is_ok) [
      | inl e ↦
          let same : w.out ≡ wire_announcement host = writing.appended (new capacity) e in
          let fits = (writing.bounded capacity (new capacity) (new-IsBounded capacity)).room in
          inr
            (same, rw (build_announcement, e) (ap length same), omega (arith, ap length same, fits))
      | inr e ↦ inl (rw (build_announcement, e) refl)
    ]
