-- ===== src/Mdns/Reply/Questions.antt =====
-- The array of questions in `buildReply` of src/http/mdns.cpp.
use audiox.Prelude.{
  inr, ◌⊎◌, ◌&&◌, refl, ◌≡◌, ◌++◌, not, inl, ◌||◌, ◌==◌, ltb, ◌%◌, length-append, ◌+◌, arith, ◌≤◌,
  length, if◌then◌else◌, ℕ, List, Bool, ◌∷◌, [], true, false, zero, suc,
}
use audiox.Mdns.Name.{read_name, Read, name, refused, unfinished}
use audiox.Mdns.Writer.{type_any, type_a, Host}
use audiox.Mdns.Reply.{
  not, lower, same_name, ltb, read16, add_question, ℕ, question_loop, note_question, List, Bool,
  Question, Wanted,
}
use audiox.Prelude.Text.{and_parts}

-- One letter in either case, or the same byte.
abbrev pub SameLetter : ℕ → ℕ → Type 0
SameLetter c d =
    (c ≡ d) ⊎ (((c + 32 ≡ d) × (65 ≤ c) × (c ≤ 90)) ⊎ ((d + 32 ≡ c) × (65 ≤ d) × (d ≤ 90)))

abbrev pub SameName : List ℕ → List ℕ → Type 0
SameName [] [] = Unit {0}
SameName [] (b ∷ bs) = ⊥
SameName (a ∷ xs) [] = ⊥
SameName (a ∷ xs) (b ∷ bs) = SameLetter a b × SameName xs bs

lower-SameLetter : (c d : ℕ) → (lower c == lower d) ≡ true → SameLetter c d
lower-SameLetter c d h = ground (arith, h)

same_name-SameName : (xs ys : List ℕ) → same_name xs ys ≡ true → SameName xs ys
unfolding same_name
same_name-SameName [] [] h = tt
same_name-SameName [] (b ∷ bs) h = absurd cc
same_name-SameName (a ∷ xs) [] h = absurd cc
same_name-SameName (a ∷ xs) (b ∷ bs) h =
    let (first, rest) = and_parts _ _ h in
    (lower-SameLetter a b first, same_name-SameName xs bs rest)

-- A question of the class IN (1) or ANY (255) for the host's own name, or for the pointer (12) or all
-- the records (255) of its reverse name.
abbrev pub About : List ℕ → List ℕ → Question → Type 0
About own reverse q =
    ((q.record_class ≡ 1) ⊎ (q.record_class ≡ 255))
    × (SameName q.text own ⊎ (SameName q.text reverse × ((q.type ≡ 12) ⊎ (q.type ≡ 255))))

abbrev pub AllAbout : List ℕ → List ℕ → List Question → Type 0
AllAbout own reverse [] = Unit {0}
AllAbout own reverse (q ∷ qs) = About own reverse q × AllAbout own reverse qs

AllAbout-append :
    (own reverse : List ℕ) (qs : List Question) (q : Question)
    → AllAbout own reverse qs
    → About own reverse q
    → AllAbout own reverse (qs ++ (q ∷ []))
AllAbout-append own reverse [] q h a = (a, tt)
AllAbout-append own reverse (p ∷ qs) q h a = (h.0, AllAbout-append own reverse qs q h.1 a)

-- At most `n` questions are stored, each of them about the host.
pub record AtMost (own reverse : List ℕ) (n : ℕ) (a : Wanted) : Type 0 where
  pub few : length a.answered ≤ n
  pub about : AllAbout own reverse a.answered

module _ {own reverse : List ℕ} where
  pick-AtMost :
      {n : ℕ} (c : Bool) (x y : Wanted)
      → (c ≡ true → AtMost own reverse n x)
      → (c ≡ false → AtMost own reverse n y)
      → AtMost own reverse n (if c then x else y)
  pick-AtMost true x y p q = p refl
  pick-AtMost false x y p q = q refl

  added-AtMost :
      {n : ℕ} (q : Question) (raw_class : ℕ) (a : Wanted)
      → AtMost own reverse n a
      → About own reverse q
      → AtMost own reverse (n + 1) (add_question q raw_class a)
  added-AtMost q raw_class a h about = record {
    few = omega (arith, length-append a.answered (q ∷ []), h.few);
    about = AllAbout-append own reverse a.answered q h.about about;
  }

class_known : (c : ℕ) → (not (c == 1) && not (c == 255)) ≡ false → (c ≡ 1) ⊎ (c ≡ 255)
class_known c h = ground arith

type_known : (t : ℕ) → (t == 12 || t == 255) ≡ true → (t ≡ 12) ⊎ (t ≡ 255)
type_known t h = ground arith

note_question-AtMost :
    {n : ℕ} (host : Host) (reverse text : List ℕ) (type raw_class : ℕ) (a : Wanted)
    → AtMost host.name reverse n a
    → AtMost host.name reverse (n + 1) (note_question host reverse text type raw_class a)
unfolding note_question
note_question-AtMost {n} host reverse text type raw_class a h =
    let q : Question = record { text = text; type = type; record_class = raw_class % 0x8000 } in
    let wanting =
      if type == type_a || type == type_any
      then record a { want_a = true }
      else record a { want_nsec = true } in
    let as_before : AtMost host.name reverse (n + 1) a = record {
      few = omega (arith, h.few);
      about = h.about;
    } in
    let same =
      pick-AtMost (type == type_a || type == type_any) _ _
        (λ e. record { few = h.few; about = h.about })
        (λ e. record { few = h.few; about = h.about }) in
    pick-AtMost _ a _ (λ e. as_before)
      (λ e.
        let known = class_known q.record_class e in
        pick-AtMost (same_name text host.name) _ _
          (λ f.
            added-AtMost q raw_class wanting same
              (known, inl (same_name-SameName text host.name f)))
          (λ f.
            pick-AtMost _ _ a
              (λ g.
                let (named, typed) = and_parts _ _ g in
                added-AtMost {n = n} q raw_class (record a { want_ptr = true })
                  record { few = h.few; about = h.about }
                  (known, inr (same_name-SameName text reverse named, type_known type typed)))
              (λ g. as_before)))

pub question_loop-AtMost :
    (count n : ℕ) (query : List ℕ) (host : Host) (reverse : List ℕ) (offset : ℕ) (a : Wanted)
    → AtMost host.name reverse n a
    → AtMost host.name reverse (n + count) (question_loop count query host reverse offset a)
unfolding question_loop
question_loop-AtMost zero n query host reverse offset a h = record {
  few = omega (arith, h.few);
  about = h.about;
}
question_loop-AtMost (suc count) n query host reverse offset a h =
    after (λ o b p. question_loop-AtMost count (n + 1) query host reverse o b p)
      (read_name query offset 256)
  where
    enough : AtMost host.name reverse (n + suc count) a
    enough = record { few = omega (arith, h.few); about = h.about }

    after :
        ((o : ℕ) (b : Wanted)
          → AtMost host.name reverse (n + 1) b
          → AtMost host.name reverse (n + 1 + count) (question_loop count query host reverse o b))
        → (r : Read)
        → AtMost host.name reverse (n + suc count) (elim r [
          | refused ↦ a
          | unfinished ↦ a
          | name text behind ↦
              if ltb (length query) (behind + 4)
              then a
              else question_loop count query host reverse (behind + 4) (
                  note_question host reverse text
                    (read16 query behind)
                    (read16 query (behind + 2))
                    a)
        ])
    after more refused = enough
    after more unfinished = enough
    after more (name text behind) =
        let noted =
          note_question-AtMost host reverse text (read16 query behind) (read16 query (behind + 2)) a
            h in
        let rest = more (behind + 4) _ noted in
        pick-AtMost (ltb (length query) (behind + 4)) _ _ (λ e. enough)
          (λ e. record { few = omega (arith, rest.few); about = rest.about })
