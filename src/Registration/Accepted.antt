-- ===== src/Registration/Accepted.antt =====
-- Which registrations the check of container/bundle.go and testcontainerd.go lets through.
use testcontainerd.Prelude.{
  ◌≡◌, ◌≢◌, refl, true, false, List, [], ◌∷◌, none, Text, text_eq_iff, trim_space, is_nil, is_some,
  All, All_always, All-pair, All-first, All-second, map, arith, inl, inr, Option-cases, ◌↔◌,
}
use testcontainerd.Registration.{Registration, contains, check_one, check_registrations}

-- No two texts of the list are the same.
abbrev pub NoRepeat : List Text → Type 0
NoRepeat [] = Unit {0}
NoRepeat (x ∷ xs) = All (λ y. x ≢ y) xs × NoRepeat xs

pub contains-false : (seen : List Text) (n : Text) → contains seen n ≡ false → All (λ s. s ≢ n) seen
unfolding contains
contains-false [] n h = tt
contains-false (s ∷ seen) n h =
    ((λ e. ground (arith, text_eq_iff s n)), contains-false seen n (ground arith))

pub contains-absent :
    (seen : List Text) (n : Text) → All (λ s. s ≢ n) seen → contains seen n ≡ false
unfolding contains
contains-absent [] n h = refl
contains-absent (s ∷ seen) n h = ground (arith, text_eq_iff s n, contains-absent seen n h.1)

module _ {W : Type 0} where
  -- One registration by itself: its trimmed name is not empty and it has a `Start`.
  abbrev pub IsNamed : Registration W → Type 0
  IsNamed reg = (is_nil (trim_space reg.name) ≡ false) × (is_some reg.start ≡ true)

  abbrev pub trimmed : List (Registration W) → List Text
  trimmed = map (λ reg. trim_space reg.name)

  -- The whole list, when some names were seen before it.
  abbrev pub IsFresh : List Text → List (Registration W) → Type 0
  IsFresh seen [] = Unit {0}
  IsFresh seen (reg ∷ regs) =
      IsNamed reg
      × All (λ s. s ≢ trim_space reg.name) seen
      × IsFresh (trim_space reg.name ∷ seen) regs

  check_one-none :
      (seen : List Text) (reg : Registration W)
      → (check_one seen reg ≡ none) ↔ (IsNamed reg × All (λ s. s ≢ trim_space reg.name) seen)
  unfolding check_one
  check_one-none seen reg = (there, back)
    where
      there : check_one seen reg ≡ none → IsNamed reg × All (λ s. s ≢ trim_space reg.name) seen
      there h = ((ground arith, ground arith), contains-false seen _ (ground arith))

      back : IsNamed reg × All (λ s. s ≢ trim_space reg.name) seen → check_one seen reg ≡ none
      back h = ground (arith, contains-absent seen (trim_space reg.name) h.1)

  check_registrations-IsFresh :
      (seen : List Text) (regs : List (Registration W))
      → check_registrations seen regs ≡ none
      → IsFresh seen regs
  unfolding check_registrations
  check_registrations-IsFresh seen [] h = tt
  check_registrations-IsFresh seen (reg ∷ regs) h = elim (Option-cases (check_one seen reg)) [
    | inl o ↦
        let (named, fresh) = (check_one-none seen reg).0 o in
        (
          named,
          fresh,
          check_registrations-IsFresh (trim_space reg.name ∷ seen) regs
              (rw (o, check_registrations) at h),
        )
    | inr (e, o) ↦ ground arith
  ]

  IsFresh-check_registrations :
      (seen : List Text) (regs : List (Registration W))
      → IsFresh seen regs
      → check_registrations seen regs ≡ none
  unfolding check_registrations
  IsFresh-check_registrations seen [] f = refl
  IsFresh-check_registrations seen (reg ∷ regs) f =
      rw ((check_one-none seen reg).1 (f.0, f.1), check_registrations)
        (IsFresh-check_registrations (trim_space reg.name ∷ seen) regs f.2)

  -- The list as a whole, with no order of checking in it.
  pub record IsAcceptable (regs : List (Registration W)) : Type 0 where
    pub named : All IsNamed regs
    pub distinct : NoRepeat (trimmed regs)

  abbrev Apart : List Text → List (Registration W) → Type 0
  Apart seen regs = All (λ s. All (λ n. s ≢ n) (trimmed regs)) seen

  IsFresh-parts :
      (seen : List Text) (regs : List (Registration W))
      → IsFresh seen regs
      → All IsNamed regs × NoRepeat (trimmed regs) × Apart seen regs
  IsFresh-parts seen [] f = (tt, tt, All_always _ seen (λ s. tt))
  IsFresh-parts seen (reg ∷ regs) f =
      let (named, distinct, apart) = IsFresh-parts (trim_space reg.name ∷ seen) regs f.2 in
      ((f.0, named), (apart.0, distinct), All-pair _ _ seen f.1 apart.1)

  parts-IsFresh :
      (seen : List Text) (regs : List (Registration W))
      → All IsNamed regs
      → NoRepeat (trimmed regs)
      → Apart seen regs
      → IsFresh seen regs
  parts-IsFresh seen [] n d a = tt
  parts-IsFresh seen (reg ∷ regs) n d a = (
    n.0,
    All-first _ _ seen a,
    parts-IsFresh (trim_space reg.name ∷ seen) regs n.1 d.1 (d.0, All-second _ _ seen a),
  )

  -- The check passes exactly the lists whose entries each have a name that is not blank and a
  -- `Start`, and whose trimmed names are pairwise different.
  pub check_registrations-none :
      (regs : List (Registration W)) → (check_registrations [] regs ≡ none) ↔ IsAcceptable regs
  check_registrations-none regs = (there, back)
    where
      there : check_registrations [] regs ≡ none → IsAcceptable regs
      there h =
          let (n, d, _) = IsFresh-parts [] regs (check_registrations-IsFresh [] regs h) in
          record { named = n; distinct = d }

      back : IsAcceptable regs → check_registrations [] regs ≡ none
      back a = IsFresh-check_registrations [] regs (parts-IsFresh [] regs a.named a.distinct tt)
