-- ===== src/Boot/Kept.antt =====
-- The rules for what an operation of include/boot_recovery.hpp keeps of the disk at all times.
pub mod Writes
pub mod Dirs
use audiox.Boot.Disk.{
  get_dir, file_in, write_interrupted, write_failed, wrote, read_interrupted, read_failed, got,
}
use audiox.Prelude.{
  ap, take, ◌++◌, drop, Bool-cases, if◌then◌else◌, Bool, inr, inl, Option-cases, ◌≡◌, ℕ, Option,
  List, ◌∷◌, [], some, none, true, false, refl, zero, suc,
}
use audiox.Boot.Disk.{
  wrote, got, Written, ReadAnswer, rename, get_file, create, ◌>>=◌, unlink, pure, drop_file, called,
  M, remove_file, put_file, find_file, put_dir, set_file, dir_of, change, Name, Files, Dir, Disk,
  World, Os,
}
use audiox.Boot.Files.{
  write_now, copy_now, write_temporary, rename_or_unlink, write_all, synced, copy_loop, copy_file,
  copy_bytes, keep_or_unlink, fsync_dir,
}

unfoldable pub AllPast : (Disk → Type 0) → List Disk → Type 0
AllPast P [] = Unit
AllPast P (k ∷ ks) = P k × AllPast P ks

-- The disk is as `P` says, now and at every time since it had the past `old`.
pub record AtAllTimes (P : Disk → Type 0) (old : List Disk) (w : World) : Type 0 where
  pub now : P w.disk
  pub newer : List Disk
  pub since : w.past ≡ newer ++ old
  pub earlier : AllPast P newer

pub starts : {P : Disk → Type 0} (w : World) → P w.disk → AtAllTimes P w.past w
unfolding AllPast
starts w p = record { now = p; newer = []; since = refl; earlier = tt }

AllPast-map :
    (P Q : Disk → Type 0)
    → ((k : Disk) → P k → Q k)
    → (ks : List Disk) → AllPast P ks
    → AllPast Q ks
unfolding AllPast
AllPast-map P Q f [] h = tt
AllPast-map P Q f (k ∷ ks) h = (f k h.0, AllPast-map P Q f ks h.1)

pub AtAllTimes-map :
    {P Q : Disk → Type 0} {old : List Disk} {w : World}
    → ((k : Disk) → P k → Q k)
    → AtAllTimes P old w
    → AtAllTimes Q old w
AtAllTimes-map {P = P} {Q = Q} f h = record {
  now = f _ h.now;
  newer = h.newer;
  since = h.since;
  earlier = AllPast-map P Q f h.newer h.earlier;
}

-- `P` is kept when the file `n` of `d` is written, or removed, or anything of `d` changes.
unfoldable pub KeptByPut : (Disk → Type 0) → Dir → Name → Type 0
KeptByPut P d n =
    (t : List ℕ) (fs : Files) (k : Disk)
    → dir_of d k ≡ some fs
    → P k
    → P (put_dir d (some (put_file n t fs)) k)

unfoldable pub KeptByRemove : (Disk → Type 0) → Dir → Name → Type 0
KeptByRemove P d n =
    (fs : Files) (k : Disk) → dir_of d k ≡ some fs → P k → P (put_dir d (some (remove_file n fs)) k)

unfoldable pub KeptByMove : (Disk → Type 0) → Dir → Name → Name → Type 0
KeptByMove P d from to =
    (t : List ℕ) (fs : Files) (k : Disk)
    → dir_of d k ≡ some fs
    → find_file from fs ≡ some t
    → P k
    → P (put_dir d (some (put_file to t (remove_file from fs))) k)

pub change-AtAllTimes :
    {old : List Disk} (P : Disk → Type 0) (k : Disk) (w : World)
    → P k
    → AtAllTimes P old w
    → AtAllTimes P old (change k w)
unfolding AllPast change
change-AtAllTimes P k w p h = record {
  now = p;
  newer = w.disk ∷ h.newer;
  since = ap (λ l. w.disk ∷ l) h.since;
  earlier = (h.now, h.earlier);
}

-- The operation keeps `P`, whatever it returns.
pub record Keeps {A : Type 0} (P : Disk → Type 0) (m : M A) : Type 0 where
  pub keeps : {old : List Disk} (w : World) → AtAllTimes P old w → AtAllTimes P old (m w).1

module _ {P : Disk → Type 0} where
  pub pure-Keeps : {A : Type 0} (a : A) → Keeps P (pure a)
  pure-Keeps a = record { keeps = λ w h. h }

  pub if-Keeps :
      {A : Type 0} (b : Bool) {x y : M A} → Keeps P x → Keeps P y → Keeps P (if b then x else y)
  if-Keeps true f g = f
  if-Keeps false f g = g

  pub bind-Keeps :
      {A B : Type 0} (m : M A) (f : A → M B)
      → Keeps P m
      → ((a : A) → Keeps P (f a))
      → Keeps P (m >>= f)
  bind-Keeps m f p q = record { keeps = λ w h. (q (m w).0).keeps (m w).1 (p.keeps w h) }

  pub called-Keeps : (os : Os) → Keeps P (called os)
  unfolding called
  called-Keeps os = record {
    keeps = λ w h. record { now = h.now; newer = h.newer; since = h.since; earlier = h.earlier };
  }

  pub AtAllTimes-if :
      {A : Type 0} {old : List Disk} (b : Bool) (x y : A × World)
      → AtAllTimes P old x.1
      → AtAllTimes P old y.1
      → AtAllTimes P old (if b then x else y).1
  AtAllTimes-if true x y f g = f
  AtAllTimes-if false x y f g = g
