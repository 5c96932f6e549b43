-- ===== src/Core/Tree/Names.antt =====
-- Entry names of tree.rs: one path segment.
use era.Base.{
  Bool-cases, Option-cases, Bytes, All, ok, bind-eq-ok, ℕ, ◌≡◌, refl, ◌≢◌, ◌↔◌, inl, inr, true,
  false, none, [], ◌∷◌, ◌++◌, arith,
}
use era.Base.ByteOrder.{bytes_eq, bytes_eq_iff}
use era.Core.ObjectId.{ObjectId}
use era.Core.Tree.{EntryKind, contains, invalid_reason, validate_entry_name, new_entry}

-- A name that is one path segment, and neither `.` nor `..`.
pub record IsSegment (name : Bytes) : Type 0 where
  pub not_empty : name ≢ []
  pub not_current : name ≢ b'.' ∷ []
  pub not_parent : name ≢ b'.' ∷ b'.' ∷ []
  pub no_slash : All (λ b. b ≢ b'/') name
  pub no_nul : All (λ b. b ≢ 0) name

pub contains-false : (c : ℕ) (bs : Bytes) → contains c bs ≡ false → All (λ b. b ≢ c) bs
unfolding contains
contains-false c [] h = tt
contains-false c (b ∷ bs) h = (ground arith, contains-false c bs (ground arith))

pub contains-All : (c : ℕ) (bs : Bytes) → All (λ b. b ≢ c) bs → contains c bs ≡ false
unfolding contains
contains-All c [] h = refl
contains-All c (b ∷ bs) (p, h) = ground (arith, contains-All c bs h)

pub contains-append : (c : ℕ) (p s : Bytes) → contains c s ≡ true → contains c (p ++ s) ≡ true
unfolding contains
contains-append c [] s h = h
contains-append c (x ∷ p) s h = ground (arith, contains-append c p s h)

pub bytes_eq-ne : (a b : Bytes) → bytes_eq a b ≡ false → a ≢ b
bytes_eq-ne a b h e = cc ((bytes_eq_iff a b).1 e)

pub ne-bytes_eq : (a b : Bytes) → a ≢ b → bytes_eq a b ≡ false
ne-bytes_eq a b h = elim (Bool-cases (bytes_eq a b)) [
  | inl e ↦ absurd (h ((bytes_eq_iff a b).0 e))
  | inr e ↦ e
]

invalid_reason-IsSegment : (name : Bytes) → invalid_reason name ≡ none → IsSegment name
unfolding invalid_reason
invalid_reason-IsSegment name h =
    let p0 : bytes_eq name [] ≡ false = ground arith in
    let p1 : bytes_eq name (b'.' ∷ []) ≡ false = ground arith in
    let p2 : bytes_eq name (b'.' ∷ b'.' ∷ []) ≡ false = ground arith in
    let p3 : contains b'/' name ≡ false = ground arith in
    let p4 : contains 0 name ≡ false = ground arith in
    record {
      not_empty = bytes_eq-ne _ _ p0;
      not_current = bytes_eq-ne _ _ p1;
      not_parent = bytes_eq-ne _ _ p2;
      no_slash = contains-false _ _ p3;
      no_nul = contains-false _ _ p4;
    }

IsSegment-invalid_reason : (name : Bytes) → IsSegment name → invalid_reason name ≡ none
unfolding invalid_reason
IsSegment-invalid_reason name v = rw (
  ne-bytes_eq _ _ v.not_empty,
  ne-bytes_eq _ _ v.not_current,
  ne-bytes_eq _ _ v.not_parent,
  contains-All _ _ v.no_slash,
  contains-All _ _ v.no_nul,
)

pub validate_entry_name-ok :
    (name : Bytes) {u : Unit {0}} → validate_entry_name name ≡ ok u → IsSegment name
unfolding validate_entry_name
validate_entry_name-ok name h = elim (Option-cases (invalid_reason name)) [
  | inl e ↦ invalid_reason-IsSegment name e
  | inr (r, e) ↦ absurd (cc)
]

pub IsSegment-validate_entry_name :
    (name : Bytes) → IsSegment name → validate_entry_name name ≡ ok tt
unfolding validate_entry_name
IsSegment-validate_entry_name name v = rw (IsSegment-invalid_reason name v, validate_entry_name)

-- `TreeEntry::new` accepts exactly the names that are one path segment, and returns its arguments
-- as the entry.
pub new_entry_iff :
    (name : Bytes) (kind : EntryKind) (id : ObjectId)
    → (new_entry name kind id ≡ ok (record { name = name; kind = kind; id = id })) ↔ IsSegment name
unfolding new_entry
new_entry_iff name kind id = (
  λ h. let (u, e, _) = bind-eq-ok (validate_entry_name name) _ h in validate_entry_name-ok name e,
  λ v. rw (IsSegment-validate_entry_name name v),
)
