-- ===== src/Boot/Exact/Reading.antt =====
-- What `brReadSmallFile` of include/boot_recovery.hpp returns.
use audiox.Prelude.{
  ◌<◌, dec_lt, take-all, ◌∙◌, length-take, subst, length-append, ◌≤◌, zero, arith, Option, ◌==◌, ap,
  ◌+◌, drop, min, length, Option-cases, ◌-◌, inl, inr, append-nil, sym, Bool-cases, take, ◌⊎◌, ◌++◌,
  ◌≡◌, ℕ, List, ◌∷◌, [], some, none, refl, suc, append_assoc, take_add,
}
use audiox.Boot.Disk.{
  find_file, dir_of, file_in, get_file, ReadAnswer, called, Name, Files, Dir, Os, World, got,
  read_interrupted, read_failed,
}
use audiox.Boot.Files.{read_now, read_text, read_small_file}
use audiox.Prelude.Rounds.{length-drop}

-- A read that ends early gives the beginning of the file.
pub read_text-take :
    (rs : List ReadAnswer) (size : ℕ) (bytes have : List ℕ)
    → (m : ℕ) × (read_text rs size bytes have ≡ have ++ take m bytes)
unfolding read_text
read_text-take rs size [] have = (0, sym (append-nil have))
read_text-take [] size (b ∷ rest) have = (0, sym (append-nil have))
read_text-take (read_interrupted ∷ rs) size (b ∷ rest) have = read_text-take rs size (b ∷ rest) have
read_text-take (read_failed ∷ rs) size (b ∷ rest) have = (0, sym (append-nil have))
read_text-take (got k ws ∷ rs) size (b ∷ rest) have =
    let space = size - 1 - length have in
    let c = min (suc k) space in
    let (m, e) = read_text-take rs size (drop c (b ∷ rest)) (have ++ take c (b ∷ rest)) in
    elim (Bool-cases (space == 0)) [
      | inl f ↦ (0, rw (read_text, f) (sym (append-nil have)))
      | inr f ↦ (
        c + m,
        rw (read_text, f, e, append_assoc have (take c (b ∷ rest)) (take m (drop c (b ∷ rest))))
            (ap (λ t. have ++ t) (sym (take_add c m _ (b ∷ rest) refl))),
      )
    ]

-- The answers give `n` bytes before an error, or before they end.
abbrev pub Delivers : List ReadAnswer → ℕ → Type 0
Delivers [] n = n ≡ 0
Delivers (read_interrupted ∷ rs) n = Delivers rs n
Delivers (read_failed ∷ rs) n = n ≡ 0
Delivers (got k ws ∷ rs) n = Delivers rs (n - suc k)

stops :
    (space : ℕ) (b : ℕ) (bs have : List ℕ)
    → min (length (b ∷ bs)) space ≡ 0
    → have ≡ have ++ take space (b ∷ bs)
stops space b bs have e =
    let none_left : space ≡ 0 = omega (arith, e) in
    subst (λ n. have ≡ have ++ take n (b ∷ bs)) (sym none_left) (sym (append-nil have))

nothing_left : (n : ℕ) (have : List ℕ) → have ≡ have ++ take n []
nothing_left zero have = sym (append-nil have)
nothing_left (suc n) have = sym (append-nil have)

-- One read, and the rest behind it.
one_read :
    (space c : ℕ) (bs have : List ℕ)
    → c ≤ space
    → (have ++ take c bs) ++ take (space - min c (length bs)) (drop c bs) ≡ have ++ take space bs
one_read space c bs have h =
    append_assoc have (take c bs) (take (space - min c (length bs)) (drop c bs))
    ∙ ap (λ t. have ++ t)
        (sym (take_add c (space - min c (length bs)) _ bs refl) ∙ same_part (dec_lt (length bs) c))
  where
    same_part : Dec (length bs < c) → take (c + (space - min c (length bs))) bs ≡ take space bs
    same_part (no enough) =
        let e : c + (space - min c (length bs)) ≡ space = omega arith in ap (λ n. take n bs) e
    same_part (yes short) = take-all _ bs (omega arith) ∙ sym (take-all space bs (omega arith))

-- Where the answers give all that there is room for, the text is the whole file or as much of it.
pub read_text_whole :
    (rs : List ReadAnswer) (size : ℕ) (bytes have : List ℕ)
    → Delivers rs (min (length bytes) (size - 1 - length have))
    → read_text rs size bytes have ≡ have ++ take (size - 1 - length have) bytes
unfolding read_text
read_text_whole rs size [] have d = nothing_left _ have
read_text_whole [] size (b ∷ rest) have d = stops _ b rest have d
read_text_whole (read_interrupted ∷ rs) size (b ∷ rest) have d =
    read_text_whole rs size (b ∷ rest) have d
read_text_whole (read_failed ∷ rs) size (b ∷ rest) have d = stops _ b rest have d
read_text_whole (got k ws ∷ rs) size (b ∷ rest) have d =
    let bs = b ∷ rest in
    let space = size - 1 - length have in
    let c = min (suc k) space in
    elim (Bool-cases (space == 0)) [
      | inl f ↦ rw (read_text, f) (stops space b rest have (ground (arith, f)))
      | inr f ↦
          let left : size - 1 - length (have ++ take c bs) ≡ space - min c (length bs) =
            omega (arith, length-append have (take c bs), length-take c bs) in
          let still : min (length bs) space - suc k
              ≡ min (length (drop c bs)) (size - 1 - length (have ++ take c bs)) =
            omega (arith, left, length-drop c bs) in
          rw (read_text, f)
            (read_text_whole rs size (drop c bs) (have ++ take c bs) (subst (Delivers rs) still d)
              ∙ ap (λ n. (have ++ take c bs) ++ take n (drop c bs)) left
              ∙ one_read space c bs have (omega arith))
    ]

-- Nothing is read, or the beginning of a file that is there.
pub read_small_file-cases :
    (os : Os) (d : Dir) (n : Name) (size : ℕ) (w : World)
    → ((read_small_file os d n size w).0 ≡ none)
      ⊎ ((text : List ℕ) × (fs : Files) × (m : ℕ) × (dir_of d w.disk ≡ some fs)
          × (file_in n (dir_of d w.disk) ≡ some text)
          × ((read_small_file os d n size w).0 ≡ some (take m text))
          × ((read_small_file os d n size w).1.disk ≡ w.disk))
unfolding read_small_file called get_file read_now file_in
read_small_file-cases os d n size w = elim (Bool-cases (os.ok w.calls)) [
  | inr g ↦ inl (rw (read_small_file, g) refl)
  | inl g ↦ elim (Option-cases (dir_of d w.disk)) [
    | inl e ↦ inl (rw (read_small_file, g, e) refl)
    | inr (fs, e) ↦ elim (Option-cases (find_file n fs)) [
      | inl f ↦ inl (rw (read_small_file, g, e, f) refl)
      | inr (text, f) ↦
          let (m, t) = read_text-take (os.reads (w.calls + 1)) size text [] in
          inr (
            text,
            fs,
            m,
            e,
            rw e f,
            rw (read_small_file, g, e, f) (ap (λ x. some x) t),
            rw (read_small_file, g, e, f) refl,
          )
    ]
  ]
]

read_now_same :
    (os : Os) (size : ℕ) (o : Option (List ℕ)) (w : World) → (read_now os size o w).1 ≡ w
unfolding read_now
read_now_same os size none w = refl
read_now_same os size (some t) w = refl

-- Reading changes nothing on the disk.
pub read_small_file_same :
    (os : Os) (d : Dir) (n : Name) (size : ℕ) (w : World)
    → (read_small_file os d n size w).1.disk ≡ w.disk
unfolding read_small_file called get_file
read_small_file_same os d n size w = elim (Bool-cases (os.ok w.calls)) [
  | inl g ↦ rw (read_small_file, g) (ap (λ x. x.disk) (read_now_same os size _ _))
  | inr g ↦ rw (read_small_file, g) refl
]
