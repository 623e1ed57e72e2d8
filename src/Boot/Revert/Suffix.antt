-- ===== src/Boot/Revert/Suffix.antt =====
-- The names of the temporary files of a restore, in include/boot_recovery.hpp.
use audiox.Prelude.{
  take, codes, ◌∙◌, ◌-◌, length, inr, ◌&&◌, sym, inl, ◌++◌, not, ap, Bool-cases, ◌==◌, ℕ, bytes_eq,
  Bool, ◌≡◌, List, ◌∷◌, [], true, false, refl,
}
use audiox.Boot.Disk.{Name}
use audiox.Boot.Exact.{take-append-drop}
use audiox.Boot.Names.{has_name, file_names, is_boot_file}
use audiox.Boot.Trial.{last_byte}
use audiox.Update.Names.{valid_kernel_name}
use audiox.Update.Names.Safe.{valid_kernel_name_sound}
use audiox.Boot.Revert.{take, codes, length, restore_suffix}
use audiox.Prelude.Text.{and_parts, bytes_eq→eq}

last_byte-append :
    (a : List ℕ) (c : ℕ) (cs : List ℕ) → last_byte (a ++ (c ∷ cs)) ≡ last_byte (c ∷ cs)
unfolding last_byte
last_byte-append [] c cs = refl
last_byte-append (x ∷ []) c cs = refl
last_byte-append (x ∷ y ∷ rest) c cs = last_byte-append (y ∷ rest) c cs

no_e : List Name → Bool
no_e [] = true
no_e (n ∷ ns) = not (last_byte n == b'e') && no_e ns

no_e-lem :
    (n : Name) (ns : List Name)
    → no_e ns ≡ true
    → has_name n ns ≡ true
    → (last_byte n == b'e') ≡ false
unfolding no_e has_name
no_e-lem n [] h e = absurd cc
no_e-lem n (m ∷ ms) h e = elim (Bool-cases (bytes_eq n m)) [
  | inl f ↦ rw (bytes_eq→eq n m f) (flipped _ (and_parts _ _ h).0)
  | inr f ↦ no_e-lem n ms (and_parts _ _ h).1 (sym (rw (has_name, f) refl) ∙ e)
]
  where
    flipped : (c : Bool) → not c ≡ true → c ≡ false
    flipped true p = absurd cc
    flipped false p = refl

kernel_last : (n : Name) → valid_kernel_name n ≡ true → last_byte n ≡ b'g'
unfolding last_byte
kernel_last n h =
    let (a, ends, b, c, d) = valid_kernel_name_sound n h in
    ap last_byte
      (sym (take-append-drop (length n - 4) n) ∙ ap (λ x. take (length n - 4) n ++ x) ends)
    ∙ last_byte-append (take (length n - 4) n) b'.' (codes "img")

is_boot_file-last : (n : Name) → is_boot_file n ≡ true → (last_byte n == b'e') ≡ false
unfolding is_boot_file no_e last_byte
is_boot_file-last n h = elim (Bool-cases (has_name n file_names)) [
  | inl e ↦ no_e-lem n file_names refl e
  | inr e ↦ rw (kernel_last n (sym (rw e refl) ∙ h)) refl
]

pub restore_suffix-differs :
    (n x : Name) → is_boot_file x ≡ true → bytes_eq (n ++ restore_suffix) x ≡ false
unfolding last_byte
restore_suffix-differs n x h = elim (Bool-cases (bytes_eq (n ++ restore_suffix) x)) [
  | inl e ↦
      let same : last_byte x ≡ b'e' =
        ap last_byte (sym (bytes_eq→eq _ x e)) ∙ last_byte-append n b'.' (codes "restore") in
      let no = is_boot_file-last x h in
      let yes : (last_byte x == b'e') ≡ true = rw same refl in absurd cc
  | inr e ↦ e
]
