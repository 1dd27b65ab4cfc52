-- ===== src/Tests/Pages.antt =====
-- A drain over two pages.
use roster_ai.Base.{ℕ, zero, suc, ◌≡◌, refl, Option, none, some, List, [], ◌∷◌}
use roster_ai.Grounding.Pagination.{Page, drained, drain_from, drain_projection_group}
use roster_ai.Base.{arith}
use roster_ai.Grounding.Complete.{serve, drain_projection_group-serve}
use roster_ai.Grounding.Drained.{IsDrained, drain_projection_group-IsDrained}

abbrev two_pages : ℕ → ℕ → Option (Page ℕ)
two_pages zero size = some (record {
  scenario_version_id = 7;
  site_id = 1;
  matching_count = 3;
  items = 31 ∷ 32 ∷ [];
  next_cursor = some 2;
})
two_pages (suc n) size = some (record {
  scenario_version_id = 7;
  site_id = 1;
  matching_count = 3;
  items = 33 ∷ [];
  next_cursor = none;
})

draining : drain_projection_group two_pages 7 1 2 5 ≡ drained (31 ∷ 32 ∷ 33 ∷ [])
unfolding drain_projection_group drain_from
draining = refl

drain_projection_group-IsDrained_example : IsDrained two_pages 7 1 2 5 0 [] (31 ∷ 32 ∷ 33 ∷ [])
drain_projection_group-IsDrained_example =
    drain_projection_group-IsDrained two_pages 7 1 2 5 draining

abbrev five : List ℕ
five = 1 ∷ 2 ∷ 3 ∷ 4 ∷ 5 ∷ []

drain_projection_group-serve_example :
    drain_projection_group (serve 7 1 five) 7 1 2 10 ≡ drained five
drain_projection_group-serve_example =
    drain_projection_group-serve 7 1 2 10 five (omega arith) (omega arith) (omega arith)
      (omega arith)
