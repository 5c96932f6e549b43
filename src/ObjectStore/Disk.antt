-- ===== src/ObjectStore/Disk.antt =====
-- The file system as crates/object-store sees it: what reading a path gives. A path is the list of
-- its segments, so that `join` appends.
use era.Base.{
  if◌then◌else◌, Bool-cases, Bytes, Result, ok, err, ◌≡◌, refl, sym, ap, ◌∙◌, ◌≢◌, ◌↔◌, inl, inr,
  Bool, true, false, ◌&&◌, List, [], ◌∷◌, arith,
}
use era.Base.ByteOrder.{bytes_eq, bytes_eq_iff}

abbrev pub PathBuf : Type 0
PathBuf = List Bytes

-- `ErrorKind::NotFound`, the errors of reading a file that is there, and those that come before it is
-- known whether the path is there.
pub data IoError : Type 0 where
  not_found unreadable other_error : IoError

abbrev pub Disk : Type 0
Disk = PathBuf → Result IoError Bytes

abbrev pub path_eq : PathBuf → PathBuf → Bool
path_eq [] [] = true
path_eq (x ∷ p) (y ∷ q) = bytes_eq x y && path_eq p q
path_eq _ _ = false

pub path_eq_iff : (p q : PathBuf) → (path_eq p q ≡ true) ↔ (p ≡ q)
path_eq_iff (x ∷ p) (y ∷ q) = ground (arith, path_eq_iff p q, bytes_eq_iff x y)
path_eq_iff _ _ = ground arith

-- `fs::try_exists`, where an error is told by the read that follows.
unfoldable pub try_exists : Disk → PathBuf → Bool
try_exists disk path = elim (disk path) [
  | ok _ ↦ true
  | err e ↦ elim e [ not_found ↦ false | unreadable ↦ true | other_error ↦ true ]
]

abbrev pub set_file : Disk → PathBuf → Bytes → Disk
set_file disk path bytes p = if path_eq p path then ok bytes else disk p

-- `fs::hard_link` of a temporary file that holds `bytes`, which is removed afterwards: the link is
-- made unless the path is there.
pub hard_link : Disk → PathBuf → Bytes → Bool × Disk
hard_link disk path bytes =
    if try_exists disk path then (false, disk) else (true, set_file disk path bytes)

-- Every file of the first disk stands in the second with the same bytes.
abbrev pub Extends : Disk → Disk → Type 0
Extends disk larger = (p : PathBuf) (bytes : Bytes) → disk p ≡ ok bytes → larger p ≡ ok bytes

pub ok-try_exists :
    (disk : Disk) (path : PathBuf) (bytes : Bytes)
    → disk path ≡ ok bytes
    → try_exists disk path ≡ true
unfolding try_exists
ok-try_exists disk path bytes e = rw (e, try_exists)

pub set_file-Extends :
    (disk : Disk) (path : PathBuf) (bytes : Bytes)
    → try_exists disk path ≡ false
    → Extends disk (set_file disk path bytes)
set_file-Extends disk path bytes h p b e = elim (Bool-cases (path_eq p path)) [
  | inl same ↦ absurd (
      clash (
        sym h
        ∙ ap (try_exists disk) (sym ((path_eq_iff p path).0 same))
        ∙ ok-try_exists disk p b e))
  | inr other ↦ rw other e
]
  where
    clash : false ≡ true → ⊥
    clash h = cc

pub set_file_self :
    (disk : Disk) (path : PathBuf) (bytes : Bytes) → set_file disk path bytes path ≡ ok bytes
set_file_self disk path bytes = rw ((path_eq_iff path path).1 refl)

pub set_file_other :
    (disk : Disk) (path p : PathBuf) (bytes : Bytes)
    → p ≢ path
    → set_file disk path bytes p ≡ disk p
set_file_other disk path p bytes n = elim (Bool-cases (path_eq p path)) [
  | inl same ↦ absurd (n ((path_eq_iff p path).0 same))
  | inr other ↦ rw other refl
]

pub hard_link_absent :
    (disk : Disk) (path : PathBuf) (bytes : Bytes)
    → try_exists disk path ≡ false
    → hard_link disk path bytes ≡ (true, set_file disk path bytes)
unfolding hard_link
hard_link_absent disk path bytes h = rw h

pub hard_link_present :
    (disk : Disk) (path : PathBuf) (bytes : Bytes)
    → try_exists disk path ≡ true
    → hard_link disk path bytes ≡ (false, disk)
unfolding hard_link
hard_link_present disk path bytes h = rw h
