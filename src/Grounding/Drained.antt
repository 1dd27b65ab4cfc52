-- ===== src/Grounding/Drained.antt =====
-- What a drain that returned has read.
use roster_ai.Base.{
  ℕ, zero, suc, ◌-◌, ◌≤◌, ◌<◌, ◌≡◌, refl, ◌∙◌, ap, subst, min, Bool, true, false, ◌||◌, ◌⊎◌, inl,
  inr, Option, none, some, List, [], ◌∷◌, ◌++◌, ◌==◌, ==_iff, ltb, leb, any, length, if◌then◌else◌,
  Bool-cases, Option-cases, arith,
}
use roster_ai.Contracts.JobLease.{Uuid}
use roster_ai.Grounding.Pagination.{
  Page, Drained, drained, failed, page_fault, drain_from, drain_projection_group, limit_exceeded,
  arguments, max_pages,
}

module _ {ℓ} {A : Type ℓ} (getter : ℕ → ℕ → Option (Page A)) (version site : Uuid)
    (page_size max_rows : ℕ) where
  -- The pages from a cursor, after `got`: each at the pinned version and site, with the same count of
  -- matching rows and an advancing cursor, the last one without a next cursor.
  pub data Pages (matching : ℕ) : ℕ → List A → List A → Type ℓ where
    last :
        (cursor : ℕ) (got : List A) (page : Page A)
        → getter cursor (min page_size (max_rows - length got)) ≡ some page
        → page.scenario_version_id ≡ version
        → page.site_id ≡ site
        → page.matching_count ≡ matching
        → page.next_cursor ≡ none
        → Pages matching cursor got (got ++ page.items)
    next :
        (cursor later : ℕ) (got items : List A) (page : Page A)
        → getter cursor (min page_size (max_rows - length got)) ≡ some page
        → page.scenario_version_id ≡ version
        → page.site_id ≡ site
        → page.matching_count ≡ matching
        → page.next_cursor ≡ some later
        → cursor < later
        → Pages matching later (got ++ page.items) items
        → Pages matching cursor got items

  pub record IsDrained (cursor : ℕ) (got items : List A) : Type ℓ where
    pub matching : ℕ
    pub pages : Pages matching cursor got items
    pub all_rows : length items ≡ matching
    pub bounded : length items ≤ max_rows

  -- What a page without a fault has.
  record IsGood (matching : Option ℕ) (got : List A) (page : Page A) : Type 0 where
    right_version : page.scenario_version_id ≡ version
    right_site : page.site_id ≡ site
    same_count : (matching ≡ none) ⊎ (matching ≡ some page.matching_count)
    bounded : length (got ++ page.items) ≤ max_rows

  good :
      (matching : Option ℕ) (got : List A) (page : Page A)
      → page_fault getter version site page_size max_rows matching got page ≡ none
      → IsGood matching got page
  good none got page h = record {
    right_version = ground (arith, h);
    right_site = ground (arith, h);
    same_count = inl refl;
    bounded = ground (arith, h);
  }
  good (some m) got page h = record {
    right_version = ground (arith, h);
    right_site = ground (arith, h);
    same_count = inr (ap some (ground (arith, h)));
    bounded = ground (arith, h);
  }

  -- A drain that goes on from `got`, with the count that it has.
  record Agrees (first : Option ℕ) (cursor : ℕ) (got items : List A) : Type ℓ where
    done : IsDrained cursor got items
    agrees : (first ≡ none) ⊎ (first ≡ some done.matching)

  with_last :
      (first : Option ℕ) (cursor : ℕ) (got : List A) (page : Page A) {items : List A}
      → getter cursor (min page_size (max_rows - length got)) ≡ some page
      → IsGood first got page
      → page.next_cursor ≡ none
      → (if length (got ++ page.items) == page.matching_count
          then drained (got ++ page.items)
          else failed limit_exceeded)
        ≡ drained items
      → Agrees first cursor got items
  with_last first cursor got page {items} e g n h =
      elim (Bool-cases (length (got ++ page.items) == page.matching_count)) [
        | inl d ↦
            let same : drained (got ++ page.items) ≡ drained items = rw d at h in
            let rows : got ++ page.items ≡ items = cc same in
            subst (Agrees first cursor got) rows (record {
              done = record {
                matching = page.matching_count;
                pages = last cursor got page e g.right_version g.right_site refl n;
                all_rows = (==_iff (length (got ++ page.items)) page.matching_count).0 d;
                bounded = g.bounded;
              };
              agrees = g.same_count;
            })
        | inr d ↦ cc (rw d at h)
      ]

  with_next :
      (first : Option ℕ) (cursor later : ℕ) (got : List A) (page : Page A) {items : List A}
      → getter cursor (min page_size (max_rows - length got)) ≡ some page
      → IsGood first got page
      → page.next_cursor ≡ some later
      → leb later cursor ≡ false
      → Agrees (some page.matching_count) later (got ++ page.items) items
      → Agrees first cursor got items
  with_next first cursor later got page {items} e g n up a = elim a.agrees [
    | inl missing ↦ cc missing
    | inr agreed ↦
        let same : page.matching_count ≡ a.done.matching = cc agreed in
        record {
          done = record {
            matching = a.done.matching;
            pages =
                next cursor later got items page e g.right_version g.right_site same n
                  (ground (arith, up)) a.done.pages;
            all_rows = a.done.all_rows;
            bounded = a.done.bounded;
          };
          agrees = elim g.same_count [ inl m ↦ inl m | inr m ↦ inr (m ∙ ap some same) ];
        }
  ]

  drain_from-Agrees :
      (pages cursor : ℕ) (got : List A) (first : Option ℕ) (seen : List ℕ) {items : List A}
      → drain_from getter version site page_size max_rows pages cursor got first seen
        ≡ drained items
      → Agrees first cursor got items
  unfolding drain_from
  drain_from-Agrees zero cursor got first seen h = cc
  drain_from-Agrees (suc pages) cursor got first seen h =
      elim (Bool-cases (any (λ c. c == cursor) seen || ltb (max_rows - length got) 1)) [
        | inl e ↦ cc (rw e at h)
        | inr e ↦ elim (Option-cases (getter cursor (min page_size (max_rows - length got)))) [
          | inl missing ↦ cc (rw (e, missing) at h)
          | inr (page, found) ↦
              elim (Option-cases
                (page_fault getter version site page_size max_rows first got page)) [
                  | inr (fault, bad) ↦ cc (rw (e, found, bad) at h)
                  | inl fine ↦
                      let g = good first got page fine in
                      elim (Option-cases page.next_cursor) [
                        | inl n ↦
                            with_last first cursor got page found g n (rw (e, found, fine, n) at h)
                        | inr (later, n) ↦ elim (Bool-cases (leb later cursor)) [
                          | inl down ↦ cc (rw (e, found, fine, n, down) at h)
                          | inr up ↦ with_next first cursor later got page found g n up (
                              drain_from-Agrees pages later (got ++ page.items)
                                (some page.matching_count) (cursor ∷ seen)
                                (rw (e, found, fine, n, up) at h))
                        ]
                      ]
                ]
        ]
      ]

  past_guard :
      (refused : Bool) (rest : Drained A) {items : List A}
      → (if refused then failed arguments else rest) ≡ drained items
      → rest ≡ drained items
  past_guard true rest h = cc
  past_guard false rest h = h

  -- When drain_projection_group returns rows, they are the items of pages that follow one another
  -- from cursor 0, each at the pinned version and site, with advancing cursors up to a last page
  -- without a next cursor; they are as many as every page said, and no more than the bound.
  pub drain_projection_group-IsDrained :
      {items : List A}
      → drain_projection_group getter version site page_size max_rows ≡ drained items
      → IsDrained 0 [] items
  unfolding drain_projection_group
  drain_projection_group-IsDrained h =
      (drain_from-Agrees max_pages 0 [] none [] (
        past_guard (ltb page_size 1 || ltb max_rows 1)
          (drain_from getter version site page_size max_rows max_pages 0 [] none []) h)).done
