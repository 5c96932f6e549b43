-- ===== src/Repository/Refs/Paths.antt =====
-- The files of crates/repository/src/refs.rs do not lie on one another, nor on the objects.
use era.ObjectStore.Local.Blobs.{object_path-under, KeepsObjects}
use era.Base.{Bytes, ◌≡◌, sym, ◌∙◌, ◌≢◌, false, List, [], ◌∷◌, ◌++◌, append_assoc}
use era.Base.ByteOrder.{bytes_eq}
use era.Core.ObjectId.{ObjectId}
use era.Core.Tree.Names.{bytes_eq-ne}
use era.ObjectStore.Disk.{PathBuf, Disk, set_file, set_file_other}
use era.ObjectStore.Local.{ObjectKind, object_path}
use era.Repository.Refs.{objects_dir_name, objects_dir}

tail_of {ℓ} : {A : Type ℓ} (m : List A) {p q : List A} → m ++ p ≡ m ++ q → p ≡ q
tail_of [] e = e
tail_of (x ∷ m) e = tail_of m (cc)

apart :
    (m : PathBuf) (a b : Bytes) (p q : PathBuf) → bytes_eq a b ≡ false → m ++ (a ∷ p) ≢ m ++ (b ∷ q)
apart m a b p q h e = bytes_eq-ne a b h (head_of (tail_of m e))
  where
    head_of : {x y : Bytes} {p q : PathBuf} → ◌≡◌ {A = PathBuf} (x ∷ p) (y ∷ q) → x ≡ y
    head_of e = cc

pub object_path-objects_dir :
    (m : PathBuf) (kind : ObjectKind) (id : ObjectId)
    → (rest : PathBuf) × (object_path (objects_dir m) kind id ≡ m ++ (objects_dir_name ∷ rest))
unfolding objects_dir
object_path-objects_dir m kind id =
    let (rest, e) = object_path-under (objects_dir m) kind id in
    (rest, e ∙ append_assoc m (objects_dir_name ∷ []) rest)

-- A file of the metadata directory that is not under `objects` may be written.
pub set_file-KeepsObjects :
    (m : PathBuf) (disk : Disk) (name : Bytes) (rest : PathBuf) (contents : Bytes)
    → bytes_eq objects_dir_name name ≡ false
    → KeepsObjects (objects_dir m) disk (set_file disk (m ++ (name ∷ rest)) contents)
set_file-KeepsObjects m disk name rest contents h kind id bytes file =
    let (under, e) = object_path-objects_dir m kind id in
    set_file_other disk (m ++ (name ∷ rest)) (object_path (objects_dir m) kind id) contents
      (λ same. apart m objects_dir_name name under rest h (sym e ∙ same))
    ∙ file

-- A file of the metadata directory with another first segment stays.
pub set_file_apart :
    (m : PathBuf) (disk : Disk) (a b : Bytes) (p q : PathBuf) (contents : Bytes)
    → bytes_eq a b ≡ false
    → set_file disk (m ++ (b ∷ q)) contents (m ++ (a ∷ p)) ≡ disk (m ++ (a ∷ p))
set_file_apart m disk a b p q contents h =
    set_file_other disk (m ++ (b ∷ q)) (m ++ (a ∷ p)) contents (apart m a b p q h)

-- Under one directory, a file with another name stays.
pub set_file_sibling :
    (m : PathBuf) (disk : Disk) (dir sub a b : Bytes) (contents : Bytes)
    → a ≢ b
    → set_file disk (m ++ (dir ∷ sub ∷ b ∷ [])) contents (m ++ (dir ∷ sub ∷ a ∷ []))
      ≡ disk (m ++ (dir ∷ sub ∷ a ∷ []))
set_file_sibling m disk dir sub a b contents n =
    set_file_other disk (m ++ (dir ∷ sub ∷ b ∷ [])) (m ++ (dir ∷ sub ∷ a ∷ [])) contents
      (λ e. n (last_of (tail_of m e)))
  where
    last_of : {x y : Bytes} → ◌≡◌ {A = PathBuf} (dir ∷ sub ∷ x ∷ []) (dir ∷ sub ∷ y ∷ []) → x ≡ y
    last_of e = cc

-- Branches and workspaces have directories of their own.
pub set_file_cousin :
    (m : PathBuf) (disk : Disk) (dir s t : Bytes) (p q : PathBuf) (contents : Bytes)
    → bytes_eq s t ≡ false
    → set_file disk (m ++ (dir ∷ t ∷ q)) contents (m ++ (dir ∷ s ∷ p)) ≡ disk (m ++ (dir ∷ s ∷ p))
set_file_cousin m disk dir s t p q contents h =
    set_file_other disk (m ++ (dir ∷ t ∷ q)) (m ++ (dir ∷ s ∷ p)) contents
      (λ e. bytes_eq-ne s t h (second_of (tail_of m e)))
  where
    second_of :
        {x y : Bytes} {p q : PathBuf} → ◌≡◌ {A = PathBuf} (dir ∷ x ∷ p) (dir ∷ y ∷ q) → x ≡ y
    second_of e = cc
