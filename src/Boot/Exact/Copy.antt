-- ===== src/Boot/Exact/Copy.antt =====
-- `brCopyFile` of include/boot_recovery.hpp, where it succeeds.
use audiox.Prelude.{
  Option-cases, sym, Option, inr, inl, Bool-cases, ◌∙◌, ap, ◌≡◌, ℕ, List, some, none, true, false,
  refl,
}
use audiox.Boot.Disk.{
  get_file, file_in, called, create, put_file, put_dir, dir_of, Name, Files, Dir, Disk, World, Os,
}
use audiox.Boot.Files.{source_of, left_to_read, copy_file, copy_bytes}
use audiox.Boot.Exact.{Ready, copy_bytes-Holding}

-- `m` of `to` became a copy of `n` of `from`, or empty if they are one file, and nothing else changed.
pub record IsCopied (from : Dir) (n : Name) (to : Dir) (m : Name) (k k' : Disk) : Type 0 where
  pub text : List ℕ
  pub source : file_in n (dir_of from k) ≡ some text
  pub files : Files
  pub target : dir_of to k ≡ some files
  pub copied : k' ≡ put_dir to (some (put_file m (left_to_read from n to m text) files)) k

pub create_needs_dir :
    (os : Os) (d : Dir) (n : Name) (w : World)
    → dir_of d w.disk ≡ none
    → (create os d n w).0 ≡ false
unfolding create called
create_needs_dir os d n w e = elim (Bool-cases (os.ok w.calls)) [
  | inl f ↦ rw (create, f, e) refl
  | inr f ↦ rw (create, f) refl
]

copy_bytes-IsCopied :
    (os : Os) (from : Dir) (n : Name) (to : Dir) (m : Name) (o : Option (List ℕ)) (k : Disk)
    (w : World)
    → w.disk ≡ k
    → file_in n (dir_of from k) ≡ o
    → (copy_bytes os to m (source_of from n to m o) w).0 ≡ true
    → IsCopied from n to m k (copy_bytes os to m (source_of from n to m o) w).1.disk
unfolding copy_bytes
copy_bytes-IsCopied os from n to m none k w same source r = cc
copy_bytes-IsCopied os from n to m (some text) k w same source r =
    elim (Option-cases (dir_of to k)) [
      | inl e ↦
          let f = create_needs_dir os to m w (ap (dir_of to) same ∙ e) in
          let g : (copy_bytes os to m (some (left_to_read from n to m text)) w).0 ≡ false =
            rw (copy_bytes, f) refl in
          cc
      | inr (fs, e) ↦
          let ready : Ready to fs k w = record { same_disk = same; listed = e } in
          record {
            text = text;
            source = source;
            files = fs;
            target = e;
            copied =
                (((copy_bytes-Holding os (left_to_read from n to m text)).run w ready).on_true
                  r).holding;
          }
    ]

-- Where copying succeeds, the target holds exactly the bytes that the source had, and nothing else
-- changed; a file that is copied onto itself is left empty.
pub copy_file_exact :
    (os : Os) (from : Dir) (n : Name) (to : Dir) (m : Name) (w : World)
    → (copy_file os from n to m w).0 ≡ true
    → IsCopied from n to m w.disk (copy_file os from n to m w).1.disk
unfolding copy_file called get_file
copy_file_exact os from n to m w r = elim (Bool-cases (os.ok w.calls)) [
  | inl e ↦
      let r' : (copy_bytes os to m (source_of from n to m (file_in n (dir_of from w.disk)))
            (called os w).1).0
          ≡ true =
        sym (rw (copy_file, e) refl) ∙ r in
      rw (copy_file, e) (copy_bytes-IsCopied os from n to m _ w.disk _ refl refl r')
  | inr e ↦ let f : (copy_file os from n to m w).0 ≡ false = rw (copy_file, e) refl in cc
]
