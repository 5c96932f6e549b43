-- ===== src/Core/Tree/Sorting.antt =====
-- `Tree::new`: the sorted entries, the rejection of duplicates, and the independence of the order
-- in which entries are given.
use era.Core.Tree.Writers.{IsEntry, Ordered, IsTree}
use Prim.Native.Nat.{Ordering}
use mathlib.Core.List.{Permᴰ}
use mathlib.Core.List.Permᴰ
use era.Base.{
  if◌then◌else◌, Bool-cases, Bytes, All, Result, ok, err, bind-eq-ok, bind-ok-err, ℕ, ◌+◌, ◌≤◌, ◌≡◌,
  refl, sym, ap, ap₂, ◌∙◌, subst, ◌≢◌, inl, inr, false, Option, none, some, List, [], ◌∷◌, arith,
}
use era.Base.ByteOrder.{
  bytes_eq, bytes_eq_iff, bytes_eq_refl, bytes_cmp, BytesLt, bytes_cmp-eq, bytes_cmp-gt,
  BytesLt-trans, BytesLt-irrefl, bytes_cmp-cases, bytes_cmp-lt,
}
use era.Core.Tree.{
  TreeEntry, Tree, TreeError, duplicate_name, insert_sorted, sort_by_name, reject_duplicate_names,
  new, ok,
}

-- No two entries share a name.
abbrev pub Distinct : List TreeEntry → Type 0
Distinct [] = Unit
Distinct (e ∷ es) = All (λ (x : TreeEntry). x.name ≢ e.name) es × Distinct es

-- How many entries bear the name.
pub count_name : Bytes → List TreeEntry → ℕ
count_name name [] = 0
count_name name (e ∷ es) = (if bytes_eq e.name name then 1 else 0) + count_name name es

abbrev NotAfter : Bytes → Bytes → Type 0
NotAfter a b = bytes_cmp a b ≢ Ordering.gt

abbrev WeaklySorted : List TreeEntry → Type 0
WeaklySorted [] = Unit
WeaklySorted (e ∷ []) = Unit
WeaklySorted (e ∷ x ∷ xs) = NotAfter e.name x.name × WeaklySorted (x ∷ xs)

gt-NotAfter : (a b : Bytes) → bytes_cmp a b ≡ Ordering.gt → NotAfter b a
gt-NotAfter a b h k = cc (bytes_cmp-gt a b h)

insert_sorted-perm : (e : TreeEntry) (es : List TreeEntry) → Permᴰ (insert_sorted e es) (e ∷ es)
unfolding insert_sorted
insert_sorted-perm e [] = Permᴰ.refl (e ∷ [])
insert_sorted-perm e (x ∷ xs) = go (insert_sorted-perm e xs) (bytes_cmp e.name x.name)
  where
    go :
        Permᴰ (insert_sorted e xs) (e ∷ xs)
        → (o : Ordering)
        → Permᴰ (elim o [ Ordering.gt ↦ x ∷ insert_sorted e xs | _ ↦ e ∷ x ∷ xs ]) (e ∷ x ∷ xs)
    go p Ordering.gt = Permᴰ.trans (Permᴰ.cons refl p) (Permᴰ.swap refl refl)
    go p Ordering.lt = Permᴰ.refl (e ∷ x ∷ xs)
    go p Ordering.eq = Permᴰ.refl (e ∷ x ∷ xs)

sort_by_name-perm : (es : List TreeEntry) → Permᴰ (sort_by_name es) es
unfolding sort_by_name
sort_by_name-perm [] = Permᴰ.nil
sort_by_name-perm (e ∷ es) =
    Permᴰ.trans (insert_sorted-perm e (sort_by_name es)) (Permᴰ.cons refl (sort_by_name-perm es))

insert_sorted-WeaklySorted :
    (e : TreeEntry) (es : List TreeEntry) → WeaklySorted es → WeaklySorted (insert_sorted e es)
unfolding insert_sorted
insert_sorted-WeaklySorted e [] h = tt
insert_sorted-WeaklySorted e (x ∷ []) h = ground (arith, gt-NotAfter e.name x.name)
insert_sorted-WeaklySorted e (x ∷ y ∷ ys) (p, h) = ground (
  arith,
  gt-NotAfter e.name x.name,
  gt-NotAfter e.name y.name,
  insert_sorted-WeaklySorted e (y ∷ ys) h,
)

sort_by_name-WeaklySorted : (es : List TreeEntry) → WeaklySorted (sort_by_name es)
unfolding sort_by_name
sort_by_name-WeaklySorted [] = tt
sort_by_name-WeaklySorted (e ∷ es) =
    insert_sorted-WeaklySorted e (sort_by_name es) (sort_by_name-WeaklySorted es)

All-perm {ℓ} : (P : TreeEntry → Type ℓ) {xs ys : List TreeEntry} → Permᴰ xs ys → All P xs → All P ys
All-perm P Permᴰ.nil h = h
All-perm P (Permᴰ.cons e p) (h, hs) = (subst P e h, All-perm P p hs)
All-perm P (Permᴰ.swap e f) (h, (k, hs)) = (subst P f k, (subst P e h, hs))
All-perm P (Permᴰ.trans p q) h = All-perm P q (All-perm P p h)

abbrev NameIsNot : Bytes → TreeEntry → Type 0
NameIsNot name x = x.name ≢ name

Distinct-perm : {xs ys : List TreeEntry} → Permᴰ xs ys → Distinct xs → Distinct ys
Distinct-perm Permᴰ.nil h = h
Distinct-perm (Permᴰ.cons {a = a} {l₂ = l₂} e p) (h, hs) = (
  subst (λ (b : TreeEntry). All (NameIsNot b.name) l₂) e (All-perm (NameIsNot a.name) p h),
  Distinct-perm p hs,
)
Distinct-perm (Permᴰ.swap {b = b} {b' = b'} {l = l} e f) ((ne, h), (k, hs)) =
    subst (λ (t : TreeEntry). Distinct (t ∷ b' ∷ l)) f
      (subst (λ (t : TreeEntry). Distinct (b ∷ t ∷ l)) e ((λ p. ne (sym p), k), (h, hs)))
Distinct-perm (Permᴰ.trans p q) h = Distinct-perm q (Distinct-perm p h)

count_name-perm :
    (name : Bytes) {xs ys : List TreeEntry} → Permᴰ xs ys → count_name name xs ≡ count_name name ys
unfolding count_name
count_name-perm name Permᴰ.nil = refl
count_name-perm name (Permᴰ.cons e p) = rw (e, count_name-perm name p)
count_name-perm name (Permᴰ.swap e f) = rw (e, f) (omega arith)
count_name-perm name (Permᴰ.trans p q) = count_name-perm name p ∙ count_name-perm name q

-- A sorted list that passes the duplicate check is strictly sorted.
reject-Ordered :
    (e : TreeEntry) (es : List TreeEntry) {u : Unit {0}}
    → WeaklySorted (e ∷ es)
    → reject_duplicate_names (e ∷ es) ≡ ok u
    → Ordered (some e.name) es
unfolding reject_duplicate_names
reject-Ordered e [] w h = tt
reject-Ordered e (x ∷ xs) (p, w) h = (strict, reject-Ordered x xs w (ground arith))
  where
    differ : bytes_eq e.name x.name ≡ false
    differ = ground arith

    strict : BytesLt e.name x.name
    strict = elim (bytes_cmp-cases e.name x.name) [
      | inl lt ↦ lt
      | inr (inl eq) ↦ absurd (cc ((bytes_eq_iff e.name x.name).1 (bytes_cmp-eq e.name x.name eq)))
      | inr (inr gt) ↦ absurd (p gt)
    ]

Ordered-above :
    (p : Bytes) (es : List TreeEntry)
    → Ordered (some p) es
    → All (λ (x : TreeEntry). BytesLt p x.name) es
Ordered-above p [] h = tt
Ordered-above p (e ∷ es) (lt, o) = (lt, go es (Ordered-above e.name es o))
  where
    go :
        (xs : List TreeEntry)
        → All (λ (x : TreeEntry). BytesLt e.name x.name) xs
        → All (λ (x : TreeEntry). BytesLt p x.name) xs
    go [] h = tt
    go (x ∷ xs) (k, h) = (BytesLt-trans p e.name x.name lt k, go xs h)

above-NameIsNot :
    (p : Bytes) (es : List TreeEntry)
    → All (λ (x : TreeEntry). BytesLt p x.name) es
    → All (NameIsNot p) es
above-NameIsNot p [] h = tt
above-NameIsNot p (e ∷ es) (lt, h) =
    (λ eq. BytesLt-irrefl p (subst (BytesLt p) eq lt), above-NameIsNot p es h)

Ordered-Distinct :
    (previous : Option Bytes) (es : List TreeEntry) → Ordered previous es → Distinct es
Ordered-Distinct previous [] h = tt
Ordered-Distinct previous (e ∷ es) (_, o) =
    (above-NameIsNot e.name es (Ordered-above e.name es o), Ordered-Distinct (some e.name) es o)

reject-Distinct : (es : List TreeEntry) → Distinct es → reject_duplicate_names es ≡ ok tt
unfolding reject_duplicate_names
reject-Distinct [] h = refl
reject-Distinct (e ∷ []) h = refl
reject-Distinct (e ∷ x ∷ xs) ((ne, _), h) =
    let differ : bytes_eq e.name x.name ≡ false = elim (Bool-cases (bytes_eq e.name x.name)) [
      | inl same ↦ absurd (ne (sym ((bytes_eq_iff e.name x.name).0 same)))
      | inr other ↦ other
    ] in
    rw differ (reject-Distinct (x ∷ xs) h)

WeaklySorted-Ordered :
    (es : List TreeEntry) {u : Unit {0}}
    → WeaklySorted es
    → reject_duplicate_names es ≡ ok u
    → Ordered none es
WeaklySorted-Ordered [] w h = tt
WeaklySorted-Ordered (e ∷ es) w h = (tt, reject-Ordered e es w h)

insert_sorted_comm :
    (a b : TreeEntry) (es : List TreeEntry)
    → a.name ≢ b.name
    → insert_sorted a (insert_sorted b es) ≡ insert_sorted b (insert_sorted a es)
unfolding insert_sorted
insert_sorted_comm a b [] ne =
    ground
      (arith, bytes_cmp-lt a.name b.name, bytes_cmp-gt a.name b.name, bytes_cmp-eq a.name b.name)
insert_sorted_comm a b (x ∷ xs) ne = ground (
  arith,
  bytes_cmp-lt a.name b.name,
  bytes_cmp-gt a.name b.name,
  bytes_cmp-eq a.name b.name,
  bytes_cmp-gt a.name x.name,
  bytes_cmp-gt b.name x.name,
  bytes_cmp-eq a.name x.name,
  bytes_cmp-eq b.name x.name,
  BytesLt-trans a.name x.name b.name,
  BytesLt-trans b.name x.name a.name,
  insert_sorted_comm a b xs ne,
)

sort_by_name-eq :
    {xs ys : List TreeEntry} → Permᴰ xs ys → Distinct xs → sort_by_name xs ≡ sort_by_name ys
unfolding sort_by_name
sort_by_name-eq Permᴰ.nil h = refl
sort_by_name-eq (Permᴰ.cons e p) (_, h) = ap₂ insert_sorted e (sort_by_name-eq p h)
sort_by_name-eq (Permᴰ.swap {a = a} {b = b} {l = l} e f) ((ne, _), _) =
    insert_sorted_comm a b (sort_by_name l) (λ p. ne (sym p))
    ∙ ap₂ (λ (x y : TreeEntry). insert_sorted x (insert_sorted y (sort_by_name l))) f e
sort_by_name-eq (Permᴰ.trans p q) h = sort_by_name-eq p h ∙ sort_by_name-eq q (Distinct-perm p h)

-- `Tree::new` succeeds on entries with distinct names, whatever their order.
new-Distinct :
    (es : List TreeEntry) → Distinct es → new es ≡ ok (record { entries = sort_by_name es })
unfolding new
new-Distinct es h =
    rw (reject-Distinct (sort_by_name es) (Distinct-perm (Permᴰ.symm (sort_by_name-perm es)) h))

-- A tree that `Tree::new` returns holds the given entries, each once, in the strict order of their
-- names, so the names were distinct; given well-formed entries it is a well-formed tree.
pub new-ok :
    (es : List TreeEntry) (t : Tree)
    → new es ≡ ok t
    → Permᴰ t.entries es × Distinct es × (All IsEntry es → IsTree t)
unfolding new
new-ok es t h =
    let (u, e1, e2) = bind-eq-ok (reject_duplicate_names (sort_by_name es)) _ h in
    let order = WeaklySorted-Ordered _ (sort_by_name-WeaklySorted es) e1 in
    let e3 : record { entries = sort_by_name es } ≡ t = cc in
    let perm = sort_by_name-perm es in
    let result : Permᴰ (sort_by_name es) es
        × Distinct es
        × (All IsEntry es → IsTree (record { entries = sort_by_name es })) =
      (
        perm,
        Distinct-perm perm (Ordered-Distinct none _ order),
        λ v. record { each = All-perm IsEntry (Permᴰ.symm perm) v; ordered = order },
      ) in
    subst (λ (t : Tree). Permᴰ t.entries es × Distinct es × (All IsEntry es → IsTree t)) e3 result

reject-err :
    (es : List TreeEntry) (x : TreeError)
    → reject_duplicate_names es ≡ err x
    → (name : Bytes) × (x ≡ duplicate_name name) × (2 ≤ count_name name es)
unfolding reject_duplicate_names count_name
reject-err [] x h = absurd (cc)
reject-err (e ∷ []) x h = absurd (cc)
reject-err (e ∷ y ∷ ys) x h = elim (Bool-cases (bytes_eq e.name y.name)) [
  | inl same ↦ (
    e.name,
    sym (err-injective (rw same at h)),
    ground (arith, bytes_eq_refl e.name, bytes_eq_iff e.name y.name),
  )
  | inr other ↦
      let (name, e1, two) = reject-err (y ∷ ys) x (rw other at h) in (name, e1, omega (arith, two))
]
  where
    err-injective :
        {a b : TreeError} → ◌≡◌ {A = Result TreeError (Unit {0})} (err a) (err b) → a ≡ b
    err-injective h = cc

-- `Tree::new` refuses only with `DuplicateName`, naming a name that two of the entries bear.
pub new-err :
    (es : List TreeEntry) (x : TreeError)
    → new es ≡ err x
    → (name : Bytes) × (x ≡ duplicate_name name) × (2 ≤ count_name name es)
unfolding new
new-err es x h =
    let (name, e, two) = reject-err (sort_by_name es) x (
      bind-ok-err (reject_duplicate_names (sort_by_name es))
        (λ _. record { entries = sort_by_name es }) h) in
    (name, e, omega (arith, count_name-perm name (sort_by_name-perm es), two))

-- The tree, and so its canonical bytes and its identifier, does not depend on the order in which
-- the entries were given.
pub new-perm : (xs ys : List TreeEntry) (t : Tree) → Permᴰ xs ys → new xs ≡ ok t → new ys ≡ ok t
new-perm xs ys t p h =
    let (_, distinct, _) = new-ok xs t h in
    new-Distinct ys (Distinct-perm p distinct)
    ∙ ap (λ es. ok (record { entries = es })) (sym (sort_by_name-eq p distinct))
    ∙ sym (new-Distinct xs distinct)
    ∙ h
