-- ===== src/Bundle/Names.antt =====
-- container/bundle.go, `Containers`: the names, sorted as `sort.Strings` does.
use testcontainerd.Prelude.{Bool, true, false, List, [], ◌∷◌, Text, ltb, ◌==◌, if◌then◌else◌}
use testcontainerd.Bundle.{Bundle}

-- `s <= t`.
unfoldable pub text_leb : Text → Text → Bool
text_leb [] t = true
text_leb (c ∷ s) [] = false
text_leb (c ∷ s) (d ∷ t) = if c == d then text_leb s t else ltb c d

unfoldable pub insert_sorted : Text → List Text → List Text
unfolding text_leb
insert_sorted s [] = s ∷ []
insert_sorted s (t ∷ ts) =
    let rest = insert_sorted s ts in if text_leb s t then s ∷ t ∷ ts else t ∷ rest

unfoldable pub sort_strings : List Text → List Text
unfolding insert_sorted
sort_strings [] = []
sort_strings (s ∷ ts) = insert_sorted s (sort_strings ts)

unfoldable pub containers : {W : Type 0} → Bundle W → List Text
unfolding sort_strings
containers b = sort_strings b.start_order
