-- ===== src/Cleanup/Swept.antt =====
-- daemon/cleanup.go: which containers are removed.
use testcontainerd.Prelude.{
  ℕ, suc, ◌≡◌, refl, sym, ◌∙◌, ap, Bool, false, not, ◌||◌, ◌&&◌, ◌==◌, is_nil, lit, text_eq,
  trim_slash, arith, List, [], ◌∷◌, ◌++◌, Option, none, some, Text, Bool-cases, Option-cases, inl,
  inr, if◌then◌else◌,
}
use mathlib.Core.List.{append_assoc, append-nil}
use testcontainerd.Prelude.Results.{ok}
use testcontainerd.Errors.{Error}
use testcontainerd.Registration.{Registration, contains}
use testcontainerd.Cleanup.{
  Listed, missing, Docker, targets_of, name_matched, remove_matched, cleanup_orphans,
}

-- A docker with these containers, that fails to remove some ids, and is done with the others at
-- once. The world is the list of the ids that it was told to remove.
abbrev pub recording : List Listed → (Text → Option Error) → Docker (List Text)
recording ctrs fails = record {
  connect = λ w. none;
  list = λ w. (ok ctrs, w);
  remove = λ id w. (fails id, w ++ id ∷ []);
  inspect = λ id w. (missing, w);
}

abbrev slashed : Text → Bool
slashed [] = false
slashed (c ∷ s) = c == b'/'

-- Does docker's name `raw` stand for the name of a registration? It is that name after a slash, or the
-- name itself, where this has no slash in front.
abbrev pub stands_for : Text → Text → Bool
stands_for raw name = text_eq raw (lit "/" ++ name) || (text_eq raw name && not (slashed raw))

module _ {W : Type 0} where
  -- Does the name `raw` stand for that of a registration, which must not be empty?
  pub is_taken : List (Registration W) → Text → Bool
  is_taken [] raw = false
  is_taken (reg ∷ regs) raw =
      (not (is_nil reg.name) && stands_for raw reg.name) || is_taken regs raw

  -- Is one of these the name of a registration?
  pub is_orphan : List (Registration W) → List Text → Bool
  is_orphan regs [] = false
  is_orphan regs (raw ∷ names) = is_taken regs raw || is_orphan regs names

  -- The ids of the containers with the name of a registration.
  pub orphans : List (Registration W) → List Listed → List Text
  orphans regs [] = []
  orphans regs (ctr ∷ ctrs) =
      let rest = orphans regs ctrs in if is_orphan regs ctr.names then ctr.id ∷ rest else rest

text_eq_sym : (s t : Text) → text_eq s t ≡ text_eq t s
unfolding text_eq
text_eq_sym [] [] = refl
text_eq_sym [] (d ∷ t) = refl
text_eq_sym (c ∷ s) [] = refl
text_eq_sym (c ∷ s) (d ∷ t) = ground (arith, text_eq_sym s t)

stands_for-trim_slash : (raw name : Text) → text_eq name (trim_slash raw) ≡ stands_for raw name
unfolding trim_slash text_eq
stands_for-trim_slash [] name = ground (arith, text_eq_sym name [])
stands_for-trim_slash (c ∷ s) name = ground (arith, text_eq_sym name s, text_eq_sym name (c ∷ s))

is_taken-contains :
    {W : Type 0} (regs : List (Registration W)) (raw : Text)
    → contains (targets_of regs) (trim_slash raw) ≡ is_taken regs raw
unfolding contains targets_of is_taken
is_taken-contains [] raw = refl
is_taken-contains (reg ∷ regs) raw =
    ground (arith, is_taken-contains regs raw, stands_for-trim_slash raw reg.name)

is_orphan-name_matched :
    {W : Type 0} (regs : List (Registration W)) (names : List Text)
    → name_matched (targets_of regs) names ≡ is_orphan regs names
unfolding name_matched is_orphan
is_orphan-name_matched regs [] = refl
is_orphan-name_matched regs (raw ∷ names) =
    rw (is_taken-contains regs raw, is_orphan-name_matched regs names) refl

-- The ids up to the first that fails, that one included.
pub up_to : (Text → Option Error) → List Text → List Text
up_to fails [] = []
up_to fails (id ∷ ids) = elim (fails id) [ none ↦ id ∷ up_to fails ids | some e ↦ id ∷ [] ]

-- The first failure.
pub first_failure : (Text → Option Error) → List Text → Option Error
first_failure fails [] = none
first_failure fails (id ∷ ids) = elim (fails id) [
  | none ↦ first_failure fails ids
  | some e ↦ some e
]

remove_matched-recording :
    (fuel : ℕ) (all : List Listed) (fails : Text → Option Error)
    (regs : List (Registration (List Text))) (ctrs : List Listed) (w : List Text)
    → remove_matched (recording all fails) (suc fuel) (targets_of regs) ctrs w
      ≡ some (first_failure fails (orphans regs ctrs), w ++ up_to fails (orphans regs ctrs))
unfolding remove_matched orphans up_to first_failure
remove_matched-recording fuel all fails regs [] w = rw (append-nil w) refl
remove_matched-recording fuel all fails regs (ctr ∷ ctrs) w =
    let same = is_orphan-name_matched regs ctr.names in
    elim (Bool-cases (is_orphan regs ctr.names)) [
      | inl m ↦ elim (Option-cases (fails ctr.id)) [
        | inl f ↦
            rw (remove_matched, orphans, up_to, first_failure, same, m, f)
              (remove_matched-recording fuel all fails regs ctrs (w ++ ctr.id ∷ [])
                ∙ ap (λ (r : List Text). some (first_failure fails (orphans regs ctrs), r))
                    (append_assoc w (ctr.id ∷ []) (up_to fails (orphans regs ctrs))))
        | inr (e, f) ↦ rw (remove_matched, orphans, up_to, first_failure, same, m, f) refl
      ]
      | inr m ↦
          rw (remove_matched, orphans, same, m)
            (remove_matched-recording fuel all fails regs ctrs w)
    ]

unmatched : (names : List Text) → name_matched [] names ≡ false
unfolding name_matched
unmatched [] = refl
unmatched (raw ∷ names) = unmatched names

no_orphans :
    {W : Type 0} (regs : List (Registration W)) (ctrs : List Listed)
    → targets_of regs ≡ []
    → orphans regs ctrs ≡ []
unfolding orphans
no_orphans regs [] e = refl
no_orphans regs (ctr ∷ ctrs) e =
    let f : is_orphan regs ctr.names ≡ false =
      sym (is_orphan-name_matched regs ctr.names) ∙ rw (e) (unmatched ctr.names) in
    rw (orphans, f) (no_orphans regs ctrs e)

-- With a docker that answers, and is done with a removal at once, `CleanupOrphans` removes the listed
-- containers of which a name is that of a registration, with or without the slash that docker puts in
-- front, and no others, in the order of the list, up to the first removal that fails; it gives the
-- error of that one, or none. A registration with an empty name stands for none.
pub cleanup_orphans-recording :
    (fuel : ℕ) (ctrs : List Listed) (fails : Text → Option Error)
    (regs : List (Registration (List Text))) (w : List Text)
    → cleanup_orphans (recording ctrs fails) (suc fuel) regs w
      ≡ some (first_failure fails (orphans regs ctrs), w ++ up_to fails (orphans regs ctrs))
unfolding cleanup_orphans up_to first_failure
cleanup_orphans-recording fuel ctrs fails regs w = go (targets_of regs) refl
  where
    go :
        (ts : List Text)
        → targets_of regs ≡ ts
        → cleanup_orphans (recording ctrs fails) (suc fuel) regs w
          ≡ some (first_failure fails (orphans regs ctrs), w ++ up_to fails (orphans regs ctrs))
    go [] e = rw (cleanup_orphans, e, no_orphans regs ctrs e, append-nil w) refl
    go (t ∷ ts) e =
        rw (cleanup_orphans, e) (rw (sym e) (remove_matched-recording fuel ctrs fails regs ctrs w))
