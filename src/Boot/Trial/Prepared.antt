-- ===== src/Boot/Trial/Prepared.antt =====
-- The marking of the copy in `bootRecoveryPrepareUpdate` of include/boot_recovery.hpp.
pub mod Power
pub mod Outage
pub mod Success
use audiox.Boot.Disk.{path_fits, called, get_file, find_file, file_in}
use audiox.Boot.Trial.{take, current_kernel}
use audiox.Boot.Exact.Reading.{Delivers, read_text_whole, read_text-take}
use audiox.Prelude.{
  length, min, take, ◌⊎◌, Option-cases, ◌+◌, ◌∙◌, sym, subst, inr, ap, drop, codes, inl, ◌||◌, ◌++◌,
  ◌&&◌, ℕ, Bool-cases, ◌≡◌, not, bytes_eq, Option, List, Bool, ◌∷◌, [], some, none, true, false,
  refl,
}
use audiox.Boot.Disk.{is_some, file_in, ◌>>=◌}
use audiox.Boot.Disk.{Name, Files, Disk, Os, World, root, boot, state, backup, backup_tmp}
use audiox.Boot.Exact.{Triple, OnTrue, Ready}
use audiox.Boot.Names.{config_name, version_name, has_name, file_names}
use audiox.Boot.Trial.Backup.{has_name-add_names, add_names, Filled}
use audiox.Update.Names.{config_kernel_name, valid_kernel_name}
use audiox.Boot.Files.{read_now, read_text, read_small_file, write_file_atomic, tmp_suffix}
use audiox.Update.Names.Safe.{config_kernel_name_valid, valid_kernel_name_sound}
use audiox.Prelude.Text.{starts_with-append, bytes_eq→eq, and_parts}
use audiox.Boot.Exact.Atomic.{Replaced-find, Replaced-find_other, write_file_atomic-Replaced}
use audiox.Boot.Exact.Reading.{read_small_file_same}

-- The kernel that config.txt of the boot files `b` selects: by the beginning of the file that was
-- read, which is all of its first 16383 bytes if the reads give them, or by an empty text where the
-- file is missing or cannot be opened.
pub data Selected (os : Os) (b : Option Files) (kernel : Name) : Type 0 where
  by_text :
      (call m : ℕ) (text read : List ℕ)
      → os.ok call ≡ true
      → file_in config_name b ≡ some text
      → read ≡ take m text
      → (Delivers (os.reads (call + 1)) (min (length text) 16383) → read ≡ take 16383 text)
      → kernel ≡ config_kernel_name read
      → Selected os b kernel
  by_default :
      ((path_fits os boot config_name 0 ≡ false)
        ⊎ (((call : ℕ) × (os.ok call ≡ false)) ⊎ (file_in config_name b ≡ none)))
      → kernel ≡ config_kernel_name []
      → Selected os b kernel

pub current_kernel-Selected :
    (os : Os) (w : World) → Selected os w.disk.boot_dir (current_kernel os w).0
unfolding current_kernel read_small_file get_file called read_now
current_kernel-Selected os w = elim (Bool-cases (path_fits os boot config_name 0)) [
  | inr e ↦ by_default (inl e) (rw (current_kernel, e) refl)
  | inl e ↦ elim (Bool-cases (os.ok w.calls)) [
    | inr g ↦ by_default (inr (inl (w.calls, g))) (rw (current_kernel, e, read_small_file, g) refl)
    | inl g ↦ elim (Option-cases (file_in config_name w.disk.boot_dir)) [
      | inl f ↦ by_default (inr (inr f)) (rw (current_kernel, e, read_small_file, g, f) refl)
      | inr (text, f) ↦
          let (m, t) = read_text-take (os.reads (w.calls + 1)) 16384 text [] in
          by_text w.calls m text _ g f t
            (λ d. read_text_whole (os.reads (w.calls + 1)) 16384 text [] d)
            (rw (current_kernel, e, read_small_file, g, f) refl)
    ]
  ]
]

pub current_kernel_valid : (os : Os) (w : World) → valid_kernel_name (current_kernel os w).0 ≡ true
unfolding current_kernel
current_kernel_valid os w = elim (Bool-cases (path_fits os boot config_name 0)) [
  | inl e ↦ rw (current_kernel, e) (config_kernel_name_valid _)
  | inr e ↦ rw (current_kernel, e) (config_kernel_name_valid [])
]

pub current_kernel_same : (os : Os) (w : World) → (current_kernel os w).1.disk ≡ w.disk
unfolding current_kernel
current_kernel_same os w = elim (Bool-cases (path_fits os boot config_name 0)) [
  | inl e ↦ rw (current_kernel, e) (read_small_file_same os boot config_name 16384 w)
  | inr e ↦ rw (current_kernel, e) refl
]

-- These files are a whole copy of the boot files `b`: of the four fixed ones and of the kernel that
-- config.txt selects.
pub record IsBackup (os : Os) (b copy : Option Files) : Type 0 where
  pub kernel : Name
  pub chosen : Selected os b kernel
  pub kernel_ok : valid_kernel_name kernel ≡ true
  pub whole :
      (n : Name) → has_name n (file_names ++ (kernel ∷ [])) ≡ true → file_in n copy ≡ file_in n b
  pub marked : is_some (file_in version_name copy) ≡ true

-- The version file and its temporary are none of these names.
is_version : Name → Bool
is_version n = bytes_eq version_name n || bytes_eq (version_name ++ tmp_suffix) n

no_version : List Name → Bool
no_version [] = true
no_version (n ∷ ns) = not (is_version n) && no_version ns

no_version-lem :
    (n : Name) (ns : List Name) → no_version ns ≡ true → has_name n ns ≡ true → is_version n ≡ false
unfolding no_version has_name
no_version-lem n [] h e = absurd cc
no_version-lem n (m ∷ ms) h e = elim (Bool-cases (bytes_eq n m)) [
  | inl f ↦ let g = (and_parts _ _ h).0 in rw (bytes_eq→eq n m f) (flipped (is_version m) g)
  | inr f ↦ no_version-lem n ms (and_parts _ _ h).1 (sym (rw (has_name, f) refl) ∙ e)
]
  where
    flipped : (c : Bool) → not c ≡ true → c ≡ false
    flipped true p = absurd cc
    flipped false p = refl

no_version-names :
    (kernel : Name)
    → valid_kernel_name kernel ≡ true
    → no_version (file_names ++ (kernel ∷ [])) ≡ true
unfolding no_version is_version
no_version-names kernel h =
    let starts = (valid_kernel_name_sound kernel h).0 in
    let e : kernel ≡ codes "kernel" ++ drop 6 kernel =
      starts_with-append (codes "kernel") kernel starts in
    subst (λ x. no_version (file_names ++ (x ∷ [])) ≡ true) (sym e) refl

-- The copy is whole, and still under its temporary name.
pub record Complete (os : Os) (b : Option Files) (w : World) : Type 0 where
  pub boot_same : w.disk.boot_dir ≡ b
  pub tmp : IsBackup os b w.disk.backup_tmp_dir

module _ (b : Option Files) (os : Os) (kernel : Name) (ok : valid_kernel_name kernel ≡ true)
    (chosen : Selected os b kernel) where
  pub version-Complete :
      (text : List ℕ)
      → Triple
          (Filled b (add_names (file_names ++ (kernel ∷ [])) []))
          (write_file_atomic os backup_tmp version_name text)
          (OnTrue (Complete os b))
  unfolding is_version file_in find_file
  version-Complete text = record {
    run = λ w h. record {
      on_true = λ r.
          let ready : Ready backup_tmp h.files w.disk w = record {
            same_disk = refl;
            listed = h.tmp;
          } in
          let done = ((write_file_atomic-Replaced os version_name text).run w ready).on_true r in
          let w' = (write_file_atomic os backup_tmp version_name text w).1 in
          record {
            boot_same = ap (λ k. k.boot_dir) done.replaced ∙ h.boot_same;
            tmp = record {
              kernel = kernel;
              chosen = chosen;
              kernel_ok = ok;
              whole = λ n e.
                  let other =
                    or_false (bytes_eq version_name n) _
                      (no_version-lem n _ (no_version-names kernel ok) e) in
                  let named = has_name-add_names n (file_names ++ (kernel ∷ [])) [] (rw e refl) in
                  Replaced-find_other _ version_name n text h.files backup_tmp w.disk w' other.0
                    other.1 done h.tmp
                  ∙ ap (file_in n) h.tmp
                  ∙ h.exact n
                  ∙ rw named refl;
              marked =
                  rw (Replaced-find _ version_name text h.files backup_tmp w.disk w' done) refl;
            };
          };
    };
  }
    where
      or_false : (x y : Bool) → (x || y) ≡ false → (x ≡ false) × (y ≡ false)
      or_false true y p = absurd cc
      or_false false y p = (refl, p)
