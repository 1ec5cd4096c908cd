-- ===== src/Bundle/Sorted.antt =====
-- container/bundle.go, `Containers`: the order of the names that it gives.
use testcontainerd.Prelude.{
  ◌≡◌, refl, sym, ◌∙◌, ap, true, false, List, [], ◌∷◌, Text, All, Bool-cases, inl, inr, arith,
}
use mathlib.Core.List.{Permᴰ}
use mathlib.Core.List.Permᴰ
use testcontainerd.Bundle.{Bundle}
use testcontainerd.Bundle.Names.{text_leb, insert_sorted, sort_strings, containers}

leb_total : (s t : Text) → text_leb s t ≡ false → text_leb t s ≡ true
unfolding text_leb
leb_total [] t h = ground arith
leb_total (c ∷ s) [] h = refl
leb_total (c ∷ s) (d ∷ t) h = ground (arith, leb_total s t)

leb_antisym : (s t : Text) → text_leb s t ≡ true → text_leb t s ≡ true → s ≡ t
unfolding text_leb
leb_antisym [] [] h k = refl
leb_antisym [] (d ∷ t) h k = ground arith
leb_antisym (c ∷ s) [] h k = ground arith
leb_antisym (c ∷ s) (d ∷ t) h k = ground (arith, leb_antisym s t)

leb_trans : (s t u : Text) → text_leb s t ≡ true → text_leb t u ≡ true → text_leb s u ≡ true
unfolding text_leb
leb_trans [] t u h k = refl
leb_trans (c ∷ s) [] u h k = ground arith
leb_trans (c ∷ s) (d ∷ t) [] h k = ground arith
leb_trans (c ∷ s) (d ∷ t) (e ∷ u) h k = ground (arith, leb_trans s t u)

insert_comm :
    (s t : Text) (xs : List Text)
    → insert_sorted s (insert_sorted t xs) ≡ insert_sorted t (insert_sorted s xs)
unfolding insert_sorted
insert_comm s t [] = ground (arith, leb_total s t, leb_total t s, leb_antisym s t)
insert_comm s t (x ∷ xs) = ground (
  arith,
  leb_total s t,
  leb_total t s,
  leb_antisym s t,
  leb_trans s t x,
  leb_trans t s x,
  leb_total s x,
  leb_total t x,
  leb_trans s x t,
  leb_trans t x s,
  insert_comm s t xs,
)

sort-Permᴰ : {xs ys : List Text} → Permᴰ xs ys → sort_strings xs ≡ sort_strings ys
unfolding sort_strings
sort-Permᴰ Permᴰ.nil = refl
sort-Permᴰ (Permᴰ.cons {a} {b} e d) = rw (e) (ap (insert_sorted b) (sort-Permᴰ d))
sort-Permᴰ (Permᴰ.swap {a} {b} {l = l} e f) = rw (sym e, sym f) (insert_comm a b (sort_strings l))
sort-Permᴰ (Permᴰ.trans p q) = sort-Permᴰ p ∙ sort-Permᴰ q

insert-Permᴰ : (s : Text) (xs : List Text) → Permᴰ (insert_sorted s xs) (s ∷ xs)
unfolding insert_sorted
insert-Permᴰ s [] = Permᴰ.refl (s ∷ [])
insert-Permᴰ s (t ∷ ts) = elim (Bool-cases (text_leb s t)) [
  | inl h ↦ rw (h) (Permᴰ.refl (s ∷ t ∷ ts))
  | inr h ↦ rw (h) (Permᴰ.trans (Permᴰ.cons refl (insert-Permᴰ s ts)) (Permᴰ.swap refl refl))
]

sort_strings-Permᴰ : (xs : List Text) → Permᴰ (sort_strings xs) xs
unfolding sort_strings
sort_strings-Permᴰ [] = Permᴰ.nil
sort_strings-Permᴰ (x ∷ xs) =
    Permᴰ.trans (insert-Permᴰ x (sort_strings xs)) (Permᴰ.cons refl (sort_strings-Permᴰ xs))

-- `s` is at most each name of a list.
abbrev IsBelow : Text → List Text → Type 0
IsBelow s xs = All (λ t. text_leb s t ≡ true) xs

-- Each name of a list is at most the names after it.
abbrev pub IsSorted : List Text → Type 0
IsSorted [] = Unit
IsSorted (x ∷ xs) = IsBelow x xs × IsSorted xs

IsBelow-leb : (s t : Text) (xs : List Text) → text_leb s t ≡ true → IsBelow t xs → IsBelow s xs
IsBelow-leb s t [] h b = tt
IsBelow-leb s t (x ∷ xs) h b = (leb_trans s t x h b.0, IsBelow-leb s t xs h b.1)

insert-IsBelow :
    (s t : Text) (xs : List Text)
    → text_leb s t ≡ true
    → IsBelow s xs
    → IsBelow s (insert_sorted t xs)
unfolding insert_sorted
insert-IsBelow s t [] h b = (h, tt)
insert-IsBelow s t (x ∷ xs) h b = elim (Bool-cases (text_leb t x)) [
  | inl l ↦ rw (l) ((h, b))
  | inr l ↦ rw (l) ((b.0, insert-IsBelow s t xs h b.1))
]

insert-IsSorted : (s : Text) (xs : List Text) → IsSorted xs → IsSorted (insert_sorted s xs)
unfolding insert_sorted
insert-IsSorted s [] h = (tt, tt)
insert-IsSorted s (x ∷ xs) h = elim (Bool-cases (text_leb s x)) [
  | inl l ↦ rw (l) (((l, IsBelow-leb s x xs l h.0), h))
  | inr l ↦ rw (l) ((insert-IsBelow x s xs (leb_total s x l) h.0, insert-IsSorted s xs h.1))
]

sort_strings-IsSorted : (xs : List Text) → IsSorted (sort_strings xs)
unfolding sort_strings
sort_strings-IsSorted [] = tt
sort_strings-IsSorted (x ∷ xs) = insert-IsSorted x (sort_strings xs) (sort_strings-IsSorted xs)

-- The names that `Containers` gives are in ascending order, each name of the start order as often
-- as it occurs there, and two bundles whose start orders are rearrangements of one another give the
-- same names in the same order.
pub containers-IsSorted :
    {W : Type 0} (b b' : Bundle W)
    → Permᴰ b.start_order b'.start_order
    → IsSorted (containers b) × Permᴰ (containers b) b.start_order × (containers b ≡ containers b')
unfolding containers
containers-IsSorted b b' p =
    (sort_strings-IsSorted b.start_order, sort_strings-Permᴰ b.start_order, sort-Permᴰ p)
