-- ===== src/Boot/Disk/Laws.antt =====
-- The laws of the files of a directory and of the directories of a disk, for include/boot_recovery.hpp.
use audiox.Prelude.{
  inr, inl, bytes_eq, Bool-cases, ◌≡◌, ℕ, Option, List, ◌∷◌, [], some, none, false, refl,
}
use audiox.Prelude.Text.{bytes_eq→eq, bytes_eq_refl}
use audiox.Boot.Disk.{
  bytes_eq, ℕ, remove_file, dir_of, put_file, put_dir, find_file, Option, List, Name, Files, Dir,
  Disk, root, boot, state, backup, backup_tmp,
}

pub find-put_self : (n : Name) (t : List ℕ) (fs : Files) → find_file n (put_file n t fs) ≡ some t
unfolding find_file put_file
find-put_self n t [] = rw (bytes_eq_refl n) refl
find-put_self n t ((m, old) ∷ fs) = elim (Bool-cases (bytes_eq m n)) [
  | inl e ↦ rw (e, e) refl
  | inr e ↦ rw (e, e) (find-put_self n t fs)
]

pub find-put_ne :
    (m n : Name) (t : List ℕ) (fs : Files)
    → bytes_eq n m ≡ false
    → find_file m (put_file n t fs) ≡ find_file m fs
unfolding find_file put_file
find-put_ne m n t [] h = rw h refl
find-put_ne m n t ((x, old) ∷ fs) h = elim (Bool-cases (bytes_eq x n)) [
  | inl e ↦ let other : bytes_eq x m ≡ false = rw (bytes_eq→eq x n e) h in rw (e, other) refl
  | inr e ↦ rw (e, find-put_ne m n t fs h) refl
]

pub find-remove_self : (n : Name) (fs : Files) → find_file n (remove_file n fs) ≡ none
unfolding find_file remove_file
find-remove_self n [] = refl
find-remove_self n ((m, t) ∷ fs) = elim (Bool-cases (bytes_eq m n)) [
  | inl e ↦ rw e (find-remove_self n fs)
  | inr e ↦ rw (e, e) (find-remove_self n fs)
]

pub find-remove_ne :
    (m n : Name) (fs : Files)
    → bytes_eq n m ≡ false
    → find_file m (remove_file n fs) ≡ find_file m fs
unfolding find_file remove_file
find-remove_ne m n [] h = refl
find-remove_ne m n ((x, t) ∷ fs) h = elim (Bool-cases (bytes_eq x n)) [
  | inl e ↦
      let other : bytes_eq x m ≡ false = rw (bytes_eq→eq x n e) h in
      rw (e, other) (find-remove_ne m n fs h)
  | inr e ↦ rw (e, find-remove_ne m n fs h) refl
]

pub put-put :
    (n : Name) (t u : List ℕ) (fs : Files) → put_file n u (put_file n t fs) ≡ put_file n u fs
unfolding put_file
put-put n t u [] = rw (bytes_eq_refl n) refl
put-put n t u ((m, old) ∷ fs) = elim (Bool-cases (bytes_eq m n)) [
  | inl e ↦ rw (e, e) refl
  | inr e ↦ rw (e, e, put-put n t u fs) refl
]

pub dir_of-put_dir : (d : Dir) (f : Option Files) (k : Disk) → dir_of d (put_dir d f k) ≡ f
dir_of-put_dir root f k = refl
dir_of-put_dir boot f k = refl
dir_of-put_dir state f k = refl
dir_of-put_dir backup f k = refl
dir_of-put_dir backup_tmp f k = refl

pub put_dir-put_dir :
    (d : Dir) (f g : Option Files) (k : Disk) → put_dir d f (put_dir d g k) ≡ put_dir d f k
put_dir-put_dir root f g k = refl
put_dir-put_dir boot f g k = refl
put_dir-put_dir state f g k = refl
put_dir-put_dir backup f g k = refl
put_dir-put_dir backup_tmp f g k = refl

pub put_dir_same : (d : Dir) (k : Disk) → put_dir d (dir_of d k) k ≡ k
put_dir_same root k = refl
put_dir_same boot k = refl
put_dir_same state k = refl
put_dir_same backup k = refl
put_dir_same backup_tmp k = refl
