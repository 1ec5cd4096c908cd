-- ===== src/Client/Environ.antt =====
-- client/autostart.go, `mergeEnv`: the environment of the daemon's process. A map is an association
-- list; where Go goes through a map, its order is that of the list.
use testcontainerd.Prelude.{
  ℕ, ◌≡◌, refl, subst, sym, ◌∙◌, true, false, List, [], ◌∷◌, ◌++◌, Option, none, some, Text, lit,
  ◌==◌, if◌then◌else◌, inl, inr, Option-cases, Bool-cases, arith, text_eq, text_eq_iff,
}
use testcontainerd.Prelude.Dict.{lookup, insert, lookup-insert, Distinct, insert-Distinct}

-- `strings.SplitN(item, "=", 2)`, if it gives two parts.
unfoldable pub cut : Text → Option (Text × Text)
cut [] = none
cut (c ∷ s) =
    let rest = cut s in
    if c == b'='
    then some ([], s)
    else elim rest [ none ↦ none | some r ↦ let (k, v) = r in some (c ∷ k, v) ]

-- The loop over the items; the last of a name wins.
unfoldable pub enter_items : List (Text × Text) → List Text → List (Text × Text)
unfolding cut insert
enter_items m [] = m
enter_items m (item ∷ items) = elim (cut item) [
  | none ↦ enter_items m items
  | some r ↦ let (k, v) = r in enter_items (insert k v m) items
]

-- The loop over the map `override`.
unfoldable pub enter_all : List (Text × Text) → List (Text × Text) → List (Text × Text)
unfolding insert
enter_all m [] = m
enter_all m ((k, v) ∷ over) = enter_all (insert k v m) over

-- The loop over the map `m`.
unfoldable pub render : List (Text × Text) → List Text
render [] = []
render ((k, v) ∷ m) = (k ++ lit "=" ++ v) ∷ render m

unfoldable pub merge_env : List Text → List (Text × Text) → List Text
unfolding enter_items enter_all render
merge_env base over = render (enter_all (enter_items [] base) over)

-- What a process with these items finds under a name.
unfoldable pub getenv : List Text → Text → Option Text
unfolding enter_items lookup
getenv items k = lookup k (enter_items [] items)

-- A name has no "=" in it.
abbrev pub IsPlain : Text → Type 0
IsPlain [] = Unit {0}
IsPlain (c ∷ s) = ((c == b'=') ≡ false) × IsPlain s

abbrev pub AllPlain : List (Text × Text) → Type 0
AllPlain [] = Unit {0}
AllPlain ((k, v) ∷ m) = IsPlain k × AllPlain m

abbrev pub prefer : Option Text → Option Text → Option Text
prefer (some v) o = some v
prefer none o = o

cut-append : (k v : Text) → IsPlain k → cut (k ++ lit "=" ++ v) ≡ some (k, v)
unfolding cut
cut-append [] v h = refl
cut-append (c ∷ k) v h = rw (cut, h.0, cut-append k v h.1) refl

cut_here : (c : ℕ) (s : Text) → (c == b'=') ≡ true → cut (c ∷ s) ≡ some ([], s)
unfolding cut
cut_here c s e = rw (cut, e) refl

cut_never : (c : ℕ) (s : Text) → (c == b'=') ≡ false → cut s ≡ none → cut (c ∷ s) ≡ none
unfolding cut
cut_never c s e f = rw (cut, e, f) refl

cut_later :
    (c : ℕ) (s : Text) {k v : Text}
    → (c == b'=') ≡ false
    → cut s ≡ some (k, v)
    → cut (c ∷ s) ≡ some (c ∷ k, v)
unfolding cut
cut_later c s e f = rw (cut, e, f) refl

cut-IsPlain : (item k v : Text) → cut item ≡ some (k, v) → IsPlain k
unfolding cut
cut-IsPlain [] k v h = ground arith
cut-IsPlain (c ∷ s) k v h = elim (Bool-cases (c == b'=')) [
  | inl e ↦
      let q : some ([], s) ≡ some (k, v) = sym (cut_here c s e) ∙ h in
      let p : [] ≡ k = ground (arith, q) in subst (λ (t : Text). IsPlain t) p tt
  | inr e ↦ elim (Option-cases (cut s)) [
    | inl f ↦ ground (arith, cut_never c s e f)
    | inr ((k', v'), f) ↦
        let q : some (c ∷ k', v') ≡ some (k, v) = sym (cut_later c s e f) ∙ h in
        let p : c ∷ k' ≡ k = ground (arith, q) in
        subst (λ (t : Text). IsPlain t) p (e, cut-IsPlain s k' v' f)
  ]
]

insert-AllPlain :
    (k v : Text) (m : List (Text × Text)) → IsPlain k → AllPlain m → AllPlain (insert k v m)
unfolding insert
insert-AllPlain k v [] h a = (h, tt)
insert-AllPlain k v ((j, w) ∷ m) h a = elim (Bool-cases (text_eq j k)) [
  | inl e ↦ rw (insert, e) (h, a.1)
  | inr e ↦ rw (insert, e) (a.0, insert-AllPlain k v m h a.1)
]

enter_all-lookup :
    (j : Text) (over m : List (Text × Text))
    → Distinct over
    → lookup j (enter_all m over) ≡ prefer (lookup j over) (lookup j m)
unfolding enter_all lookup
enter_all-lookup j [] m d = refl
enter_all-lookup j ((k, v) ∷ over) m d =
    ground (
      arith,
      enter_all-lookup j over (insert k v m) d.1,
      lookup-insert k j v m,
      d.0,
      text_eq_iff k j,
    )

enter_items-render :
    (j : Text) (n m : List (Text × Text))
    → Distinct n
    → AllPlain n
    → lookup j (enter_items m (render n)) ≡ prefer (lookup j n) (lookup j m)
unfolding enter_items render lookup
enter_items-render j [] m d p = refl
enter_items-render j ((k, v) ∷ n) m d p =
    rw (enter_items, cut-append k v p.0)
      (ground (
        arith,
        enter_items-render j n (insert k v m) d.1 p.1,
        lookup-insert k j v m,
        d.0,
        text_eq_iff k j,
      ))

enter_all-Sound :
    (over m : List (Text × Text))
    → AllPlain over
    → AllPlain m
    → Distinct m
    → AllPlain (enter_all m over) × Distinct (enter_all m over)
unfolding enter_all
enter_all-Sound [] m p a d = (a, d)
enter_all-Sound ((k, v) ∷ over) m p a d =
    enter_all-Sound over (insert k v m) p.1 (insert-AllPlain k v m p.0 a) (insert-Distinct k v m d)

enter_items-Sound :
    (items : List Text) (m : List (Text × Text))
    → AllPlain m
    → Distinct m
    → AllPlain (enter_items m items) × Distinct (enter_items m items)
unfolding enter_items
enter_items-Sound [] m a d = (a, d)
enter_items-Sound (item ∷ items) m a d = elim (Option-cases (cut item)) [
  | inl e ↦ rw (enter_items, e) (enter_items-Sound items m a d)
  | inr ((k, v), e) ↦
      rw (enter_items, e)
        (enter_items-Sound items (insert k v m) (insert-AllPlain k v m (cut-IsPlain item k v e) a)
          (insert-Distinct k v m d))
]

prefer-none : (o : Option Text) → prefer o none ≡ o
prefer-none none = refl
prefer-none (some v) = refl

pub getenv-merge_env :
    (base : List Text) (over : List (Text × Text)) (k : Text)
    → Distinct over
    → AllPlain over
    → getenv (merge_env base over) k ≡ prefer (lookup k over) (getenv base k)
unfolding getenv merge_env
getenv-merge_env base over k d p =
    let (a, b) = enter_items-Sound base [] tt tt in
    let (a', b') = enter_all-Sound over (enter_items [] base) p a b in
    enter_items-render k (enter_all (enter_items [] base) over) [] b' a'
    ∙ (prefer-none _ ∙ enter_all-lookup k over (enter_items [] base) d)
