-- ===== src/Grounding/Pagination.antt =====
-- backend/application/grounding/pagination.py: `drain_projection_group`. The getter, with its
-- connection, scenario and filters, is an argument; it takes a cursor and a limit.
use roster_ai.Base.{
  ℕ, zero, suc, ◌-◌, min, false, not, ◌||◌, Option, none, some, List, [], ◌∷◌, ◌++◌, ◌==◌, ltb, leb,
  any, length, if◌then◌else◌,
}
use roster_ai.Contracts.JobLease.{Uuid}

-- MAX_PAGES
abbrev pub max_pages : ℕ
max_pages = 512

-- The errors of the module.
pub data CalculationFault : Type 0 where
  calculation_error arguments scenario_not_found version_mismatch site_mismatch limit_exceeded :
      CalculationFault

-- A page of a fact group, the fields that the loop reads.
pub record Page {ℓ} (A : Type ℓ) : Type ℓ where
  pub scenario_version_id : Uuid
  pub site_id : Uuid
  pub matching_count : ℕ
  pub items : List A
  pub next_cursor : Option ℕ

pub data Drained {ℓ} (A : Type ℓ) : Type ℓ where
  drained : List A → Drained A
  failed : CalculationFault → Drained A

module _ {ℓ} {A : Type ℓ} (getter : ℕ → ℕ → Option (Page A)) (version site : Uuid)
    (page_size max_rows : ℕ) where
  -- The checks of a page, in their order, before and after its items are added.
  abbrev pub page_fault : Option ℕ → List A → Page A → Option CalculationFault
  page_fault matching items page =
      if not (page.scenario_version_id == version)
      then some version_mismatch
      else if not (page.site_id == site)
      then some site_mismatch
      else if elim matching [ none ↦ ltb max_rows page.matching_count | some m ↦ false ]
      then some limit_exceeded
      else if elim matching [ none ↦ false | some m ↦ not (page.matching_count == m) ]
      then some calculation_error
      else if ltb max_rows (length (items ++ page.items))
      then some limit_exceeded
      else none

  -- The end of the loop's body: return, refuse, or go on from the next cursor.
  abbrev pub after_page : (ℕ → Drained A) → ℕ → List A → ℕ → Option ℕ → Drained A
  after_page go cursor items matching none =
      if length items == matching then drained items else failed limit_exceeded
  after_page go cursor items matching (some next) =
      if leb next cursor then failed limit_exceeded else go next

  abbrev pub unless_fault : Option CalculationFault → Drained A → Drained A
  unless_fault (some fault) rest = failed fault
  unless_fault none rest = rest

  abbrev pub with_page :
      (ℕ → List A → ℕ → Drained A) → Option ℕ → ℕ → List A → Option (Page A) → Drained A
  with_page go matching cursor items none = failed scenario_not_found
  with_page go matching cursor items (some page) = unless_fault (page_fault matching items page) (
      after_page (λ next. go next (items ++ page.items) page.matching_count) cursor
        (items ++ page.items) page.matching_count page.next_cursor)

  -- The rest of `for _ in range(MAX_PAGES)`, with the pages left.
  unfoldable pub drain_from : ℕ → ℕ → List A → Option ℕ → List ℕ → Drained A
  drain_from zero cursor items matching seen = failed limit_exceeded
  drain_from (suc pages) cursor items matching seen =
      if any (λ c. c == cursor) seen || ltb (max_rows - length items) 1
      then failed limit_exceeded
      else with_page (λ next rows count. drain_from pages next rows (some count) (cursor ∷ seen))
          matching cursor items (getter cursor (min page_size (max_rows - length items)))

  unfoldable pub drain_projection_group : Drained A
  drain_projection_group =
      if ltb page_size 1 || ltb max_rows 1
      then failed arguments
      else drain_from max_pages 0 [] none []
