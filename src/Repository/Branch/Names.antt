-- ===== src/Repository/Branch/Names.antt =====
-- Branch names of crates/repository/src/branch.rs as file names.
use era.Base.{
  Option-cases, Bool-cases, Bytes, All, Result, ok, err, ℕ, ◌≡◌, refl, sym, ap, ◌∙◌, subst, ◌≢◌,
  ◌↔◌, inl, inr, true, false, none, some, [], ◌∷◌, arith,
}
use era.Base.ByteOrder.{bytes_eq, bytes_eq_iff}
use era.Core.Tree.{contains}
use era.Core.Tree.Names.{IsSegment, contains-false, contains-All, bytes_eq-ne, ne-bytes_eq}
use era.Repository.Branch.{
  InvalidBranchNameReason, empty, current_directory, parent_directory, contains_slash,
  contains_backslash, contains_nul, InvalidBranchName, branch_reason, validate_branch_name,
  new_branch_name,
}

-- A file name on every platform that the program names.
abbrev pub IsPortable : Bytes → Type 0
IsPortable name = IsSegment name × All (λ b. b ≢ b'\\') name

branch_reason-IsPortable : (name : Bytes) → branch_reason name ≡ none → IsPortable name
unfolding branch_reason
branch_reason-IsPortable name h =
    let p0 : bytes_eq name [] ≡ false = ground arith in
    let p1 : bytes_eq name (b'.' ∷ []) ≡ false = ground arith in
    let p2 : bytes_eq name (b'.' ∷ b'.' ∷ []) ≡ false = ground arith in
    let p3 : contains b'/' name ≡ false = ground arith in
    let p4 : contains b'\\' name ≡ false = ground arith in
    let p5 : contains 0 name ≡ false = ground arith in
    (
      record {
        not_empty = bytes_eq-ne _ _ p0;
        not_current = bytes_eq-ne _ _ p1;
        not_parent = bytes_eq-ne _ _ p2;
        no_slash = contains-false _ _ p3;
        no_nul = contains-false _ _ p5;
      },
      contains-false _ _ p4,
    )

IsPortable-branch_reason : (name : Bytes) → IsPortable name → branch_reason name ≡ none
unfolding branch_reason
IsPortable-branch_reason name (v, w) = rw (
  ne-bytes_eq _ _ v.not_empty,
  ne-bytes_eq _ _ v.not_current,
  ne-bytes_eq _ _ v.not_parent,
  contains-All _ _ v.no_slash,
  contains-All _ _ w,
  contains-All _ _ v.no_nul,
)

abbrev pub Lacks : ℕ → Bytes → Type 0
Lacks x name = All (λ b. b ≢ x) name

-- What each reason says of a name, in the order in which they are tried.
abbrev pub Applies : InvalidBranchNameReason → Bytes → Type 0
Applies empty name = name ≡ []
Applies current_directory name = name ≡ b'.' ∷ []
Applies parent_directory name = name ≡ b'.' ∷ b'.' ∷ []
Applies contains_slash name = ¬ (Lacks b'/' name)
Applies contains_backslash name = Lacks b'/' name × ¬ (Lacks b'\\' name)
Applies contains_nul name = Lacks b'/' name × Lacks b'\\' name × ¬ (Lacks 0 name)

contains-Lacks : (x : ℕ) (name : Bytes) → contains x name ≡ true → ¬ (Lacks x name)
contains-Lacks x name h l = clash (sym h ∙ contains-All x name l)
  where
    clash : true ≡ false → ⊥
    clash e = cc

Lacks-contains : (x : ℕ) (name : Bytes) → ¬ (Lacks x name) → contains x name ≡ true
Lacks-contains x name h = elim (Bool-cases (contains x name)) [
  | inl e ↦ e
  | inr e ↦ absurd (h (contains-false x name e))
]

branch_reason-Applies :
    (name : Bytes) (reason : InvalidBranchNameReason)
    → branch_reason name ≡ some reason
    → Applies reason name
unfolding branch_reason
branch_reason-Applies name empty h =
    let p : bytes_eq name [] ≡ true = ground arith in (bytes_eq_iff name []).0 p
branch_reason-Applies name current_directory h =
    let p : bytes_eq name (b'.' ∷ []) ≡ true = ground arith in (bytes_eq_iff name _).0 p
branch_reason-Applies name parent_directory h =
    let p : bytes_eq name (b'.' ∷ b'.' ∷ []) ≡ true = ground arith in (bytes_eq_iff name _).0 p
branch_reason-Applies name contains_slash h =
    let p : contains b'/' name ≡ true = ground arith in contains-Lacks b'/' name p
branch_reason-Applies name contains_backslash h =
    let p : contains b'/' name ≡ false = ground arith in
    let q : contains b'\\' name ≡ true = ground arith in
    (contains-false b'/' name p, contains-Lacks b'\\' name q)
branch_reason-Applies name contains_nul h =
    let p : contains b'/' name ≡ false = ground arith in
    let q : contains b'\\' name ≡ false = ground arith in
    let r : contains 0 name ≡ true = ground arith in
    (contains-false b'/' name p, contains-false b'\\' name q, contains-Lacks 0 name r)

-- A name with a byte that is no dot is none of the three names that are refused as a whole.
not_special :
    (x : ℕ) (name : Bytes)
    → b'.' ≢ x
    → ¬ (Lacks x name)
    → (bytes_eq name [] ≡ false)
      × (bytes_eq name (b'.' ∷ []) ≡ false)
      × (bytes_eq name (b'.' ∷ b'.' ∷ []) ≡ false)
not_special x name n h = (
  ne-bytes_eq name _ (λ e. h (subst (Lacks x) (sym e) tt)),
  ne-bytes_eq name _ (λ e. h (subst (Lacks x) (sym e) (n, tt))),
  ne-bytes_eq name _ (λ e. h (subst (Lacks x) (sym e) (n, (n, tt)))),
)

Applies-branch_reason :
    (name : Bytes) (reason : InvalidBranchNameReason)
    → Applies reason name
    → branch_reason name ≡ some reason
unfolding branch_reason bytes_eq contains
Applies-branch_reason name empty h =
    subst (λ (n : Bytes). branch_reason n ≡ some empty) (sym h) refl
Applies-branch_reason name current_directory h =
    subst (λ (n : Bytes). branch_reason n ≡ some current_directory) (sym h) refl
Applies-branch_reason name parent_directory h =
    subst (λ (n : Bytes). branch_reason n ≡ some parent_directory) (sym h) refl
Applies-branch_reason name contains_slash h =
    let (p, q, r) = not_special b'/' name (ground arith) h in
    rw (p, q, r, Lacks-contains b'/' name h) refl
Applies-branch_reason name contains_backslash (l, h) =
    let (p, q, r) = not_special b'\\' name (ground arith) h in
    rw (p, q, r, contains-All b'/' name l, Lacks-contains b'\\' name h) refl
Applies-branch_reason name contains_nul (l, k, h) =
    let (p, q, r) = not_special 0 name (ground arith) h in
    rw (p, q, r, contains-All b'/' name l, contains-All b'\\' name k, Lacks-contains 0 name h) refl

-- `BranchName::new` accepts exactly the names that are one path segment, as `TreeEntry::new` has
-- it, without a backslash. It refuses a name, with the name and a reason in the error, exactly when
-- the reason applies: the name is empty, `.` or `..`; it holds a slash; it holds a backslash and no
-- slash; or it holds a NUL and neither.
pub new_branch_name_iff :
    (name : Bytes)
    → ((new_branch_name name ≡ ok name) ↔ IsPortable name)
      × ((e : InvalidBranchName)
          → (new_branch_name name ≡ err e) ↔ ((e.name ≡ name) × Applies e.reason name))
unfolding new_branch_name validate_branch_name
new_branch_name_iff name = elim (Option-cases (branch_reason name)) [
  | inl e ↦ (
    (λ _. branch_reason-IsPortable name e, λ _. rw (e, validate_branch_name)),
    λ x. (
      λ h. absurd (accepted x (rw (e, validate_branch_name) at h)),
      λ (_, a). absurd (none_some (sym e ∙ Applies-branch_reason name x.reason a)),
    ),
  )
  | inr (r, e) ↦ (
    (
      λ h. absurd (refused (rw (e, validate_branch_name) at h)),
      λ v. absurd (none_some (sym (IsPortable-branch_reason name v) ∙ e)),
    ),
    λ x. (
      λ h. same r x e (rw (e, validate_branch_name) at h),
      λ (n, a).
          rw (e, validate_branch_name)
            (with_reason r x n (sym e ∙ Applies-branch_reason name x.reason a)),
    ),
  )
]
  where
    none_some : {r : InvalidBranchNameReason} → none ≡ some r → ⊥
    none_some h = cc

    accepted :
        (x : InvalidBranchName) → ◌≡◌ {A = Result InvalidBranchName Bytes} (ok name) (err x) → ⊥
    accepted x h = cc

    refused :
        {x : InvalidBranchName} → ◌≡◌ {A = Result InvalidBranchName Bytes} (err x) (ok name) → ⊥
    refused h = cc

    same :
        (r : InvalidBranchNameReason) (x : InvalidBranchName)
        → branch_reason name ≡ some r
        → ◌≡◌ {A = Result InvalidBranchName Bytes}
            (err (record { name = name; reason = r }))
            (err x)
        → (x.name ≡ name) × Applies x.reason name
    same r x e h =
        let f : record { name = name; reason = r } ≡ x = cc in
        (
          sym (ap (λ (y : InvalidBranchName). y.name) f),
          branch_reason-Applies name x.reason (e ∙ ap (λ (y : InvalidBranchName). some y.reason) f),
        )

    with_reason :
        (r : InvalidBranchNameReason) (x : InvalidBranchName)
        → x.name ≡ name
        → some r ≡ some x.reason
        → ◌≡◌ {A = Result InvalidBranchName Bytes}
            (err (record { name = name; reason = r }))
            (err x)
    with_reason r x n e = cc
