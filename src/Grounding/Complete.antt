-- ===== src/Grounding/Complete.antt =====
-- The drain over a getter that serves a list.
use roster_ai.Base.{
  ℕ, zero, suc, ◌+◌, ◌-◌, ◌*◌, ◌≤◌, ◌<◌, ◌≡◌, refl, sym, ◌∙◌, ap, subst, min, Bool, true, false,
  ◌||◌, ◌⊎◌, inl, inr, Option, none, some, List, [], ◌∷◌, ◌++◌, ◌==◌, ==_iff, ltb, leb, any, length,
  take, drop, length-append, if◌then◌else◌, Bool-cases, arith, All,
}
use roster_ai.Contracts.JobLease.{Uuid}
use roster_ai.Grounding.Pagination.{
  Page, Drained, drained, failed, page_fault, drain_from, drain_projection_group, max_pages,
  arguments,
}

-- A page of a list: `limit` rows from the cursor, and the next cursor if rows are left.
abbrev pub serve {ℓ} : {A : Type ℓ} → Uuid → Uuid → List A → ℕ → ℕ → Option (Page A)
serve version site rows cursor limit = some (record {
  scenario_version_id = version;
  site_id = site;
  matching_count = length rows;
  items = take limit (drop cursor rows);
  next_cursor = if ltb (cursor + limit) (length rows) then some (cursor + limit) else none;
})

module _ {ℓ} {A : Type ℓ} where
  drop-length-append : (xs ys : List A) → drop (length xs) (xs ++ ys) ≡ ys
  drop-length-append [] ys = refl
  drop-length-append (x ∷ xs) ys = drop-length-append xs ys

  take-all : (n : ℕ) (xs : List A) → length xs ≤ n → take n xs ≡ xs
  take-all zero [] h = refl
  take-all zero (x ∷ xs) h = absurd (omega (arith, h))
  take-all (suc n) [] h = refl
  take-all (suc n) (x ∷ xs) h = ap (◌∷◌ x) (take-all n xs (omega (arith, h)))

  length-take : (n : ℕ) (xs : List A) → n ≤ length xs → length (take n xs) ≡ n
  length-take zero xs h = refl
  length-take (suc n) [] h = absurd (omega (arith, h))
  length-take (suc n) (x ∷ xs) h = ap suc (length-take n xs (omega (arith, h)))

  take-append-drop : (n : ℕ) (xs : List A) → take n xs ++ drop n xs ≡ xs
  take-append-drop zero xs = refl
  take-append-drop (suc n) [] = refl
  take-append-drop (suc n) (x ∷ xs) = ap (◌∷◌ x) (take-append-drop n xs)

  append_assoc : (xs ys zs : List A) → (xs ++ ys) ++ zs ≡ xs ++ (ys ++ zs)
  append_assoc [] ys zs = refl
  append_assoc (x ∷ xs) ys zs = ap (◌∷◌ x) (append_assoc xs ys zs)

unseen : (c : ℕ) (seen : List ℕ) → All (λ s. s < c) seen → any (λ s. s == c) seen ≡ false
unseen c [] h = refl
unseen c (s ∷ ss) h = ground (arith, h.0, unseen c ss h.1)

All-raise : (c d : ℕ) (seen : List ℕ) → c ≤ d → All (λ s. s < c) seen → All (λ s. s < d) seen
All-raise c d [] h a = tt
All-raise c d (s ∷ ss) h a = (omega (arith, h, a.0), All-raise c d ss h a.1)

times_suc : (n p : ℕ) → suc n * p ≡ p + n * p
times_suc n p = omega arith

module _ {ℓ} {A : Type ℓ} (version site : Uuid) (page_size max_rows : ℕ) (rows : List A)
    (room : length rows ≤ max_rows) (some_room : 0 < max_rows) (some_size : 0 < page_size) where
  abbrev limit_at : List A → ℕ
  limit_at got = min page_size (max_rows - length got)

  abbrev page_at : List A → List A → Page A
  page_at got rest = record {
    scenario_version_id = version;
    site_id = site;
    matching_count = length rows;
    items = take (limit_at got) rest;
    next_cursor =
        if ltb (length got + limit_at got) (length rows)
        then some (length got + limit_at got)
        else none;
  }

  length-take_le : (n : ℕ) (xs : List A) → length (take n xs) ≤ length xs
  length-take_le zero xs = omega arith
  length-take_le (suc n) [] = omega arith
  length-take_le (suc n) (x ∷ xs) = omega (arith, length-take_le n xs)

  faultless :
      (got rest : List A) (first : Option ℕ)
      → rows ≡ got ++ rest
      → (first ≡ none) ⊎ (first ≡ some (length rows))
      → page_fault
          (serve version site rows)
          version
          site
          page_size
          max_rows
          first
          got
          (page_at got rest)
        ≡ none
  faultless got rest first split agrees =
      let fits : length (got ++ take (limit_at got) rest) ≤ max_rows = omega (
        arith,
        room,
        length-append got (take (limit_at got) rest),
        length-take_le (limit_at got) rest,
        ap length split,
        length-append got rest,
      ) in
      let own_version = (==_iff version version).1 refl in
      let own_site = (==_iff site site).1 refl in
      let own_count = (==_iff (length rows) (length rows)).1 refl in
      let small : ltb max_rows (length rows) ≡ false = ground (arith, room) in
      let bounded : ltb max_rows (length (got ++ take (limit_at got) rest)) ≡ false =
        ground (arith, fits) in
      elim agrees [
        | inl e ↦ rw (e, own_version, own_site, small, bounded) refl
        | inr e ↦ rw (e, own_version, own_site, own_count, bounded) refl
      ]

  may_read :
      (got rest : List A) (seen : List ℕ)
      → rows ≡ got ++ rest
      → (0 < length rest) ⊎ (length got ≡ 0)
      → All (λ s. s < length got) seen
      → (any (λ s. s == length got) seen || ltb (max_rows - length got) 1) ≡ false
  may_read got rest seen split left fresh =
      let size = ap length split ∙ length-append got rest in
      let open_room : ltb (max_rows - length got) 1 ≡ false = elim left [
        | inl e ↦ ground (arith, size, room, e)
        | inr e ↦ ground (arith, some_room, e)
      ] in
      rw (unseen (length got) seen fresh, open_room) refl

  served : (got rest : List A) → rows ≡ got ++ rest → drop (length got) rows ≡ rest
  served got rest split = ap (drop (length got)) split ∙ drop-length-append got rest

  -- A page that is not the last is full.
  full :
      (got rest : List A)
      → ltb (length got + limit_at got) (length rows) ≡ true
      → limit_at got ≡ page_size
  full got rest more = ground (arith, more, room)

  last_page :
      (got rest : List A)
      → rows ≡ got ++ rest
      → ltb (length got + limit_at got) (length rows) ≡ false
      → got ++ take (limit_at got) rest ≡ rows
  last_page got rest split done =
      let size = ap length split ∙ length-append got rest in
      let short : length rest ≤ limit_at got = ground (arith, size, done) in
      ap (◌++◌ got) (take-all (limit_at got) rest short) ∙ sym split

  unread :
      (got rest : List A)
      → rows ≡ got ++ rest
      → ltb (length got + limit_at got) (length rows) ≡ true
      → (length (got ++ take (limit_at got) rest) ≡ length got + limit_at got)
        × (length (drop (limit_at got) rest) + limit_at got ≡ length rest)
  unread got rest split more =
      let size = ap length split ∙ length-append got rest in
      let long : limit_at got ≤ length rest = ground (arith, size, more) in
      let taken = length-take (limit_at got) rest long in
      (
        length-append got (take (limit_at got) rest) ∙ ap (λ n. length got + n) taken,
        omega (
          arith,
          taken,
          sym (length-append (take (limit_at got) rest) (drop (limit_at got) rest))
              ∙ ap length (take-append-drop (limit_at got) rest),
        ),
      )

  past_guards :
      (a b : Bool) (rest : Drained A)
      → a ≡ false
      → b ≡ false
      → rest ≡ drained rows
      → (if a || b then failed arguments else rest) ≡ drained rows
  past_guards a b rest e f h = rw (e, f) h

  drain_step :
      (pages : ℕ) (got rest : List A) (first : Option ℕ) (seen : List ℕ)
      → rows ≡ got ++ rest
      → (0 < length rest) ⊎ (length got ≡ 0)
      → (first ≡ none) ⊎ (first ≡ some (length rows))
      → All (λ s. s < length got) seen
      → (ltb (length got + limit_at got) (length rows) ≡ true
          → drain_from
              (serve version site rows)
              version
              site
              page_size
              max_rows
              pages
              (length (got ++ take (limit_at got) rest))
              (got ++ take (limit_at got) rest)
              (some (length rows))
              (length got ∷ seen)
            ≡ drained rows)
      → drain_from
          (serve version site rows)
          version
          site
          page_size
          max_rows
          (suc pages)
          (length got)
          got
          first
          seen
        ≡ drained rows
  unfolding drain_from
  drain_step pages got rest first seen split left agrees fresh later =
      elim (Bool-cases (ltb (length got + limit_at got) (length rows))) [
        | inl more ↦
            let sizes = unread got rest split more in
            let filled = full got rest more in
            let up : leb (length got + limit_at got) (length got) ≡ false =
              ground (arith, filled, some_size) in
            rw
              (
                may_read got rest seen split left fresh,
                served got rest split,
                faultless got rest first split agrees,
                more,
                up,
              )
              (subst
                (λ c.
                  drain_from (serve version site rows) version site page_size max_rows pages c
                    (got ++ take (limit_at got) rest) (some (length rows)) (length got ∷ seen)
                  ≡ drained rows)
                sizes.0 (later more))
        | inr done ↦
            let all = last_page got rest split done in
            let own_count = (==_iff (length rows) (length rows)).1 refl in
            rw
              (
                may_read got rest seen split left fresh,
                served got rest split,
                faultless got rest first split agrees,
                done,
              )
              (rw (all, own_count) refl)
      ]

  drain_rest :
      (pages : ℕ) (got rest : List A) (first : Option ℕ) (seen : List ℕ)
      → rows ≡ got ++ rest
      → (0 < length rest) ⊎ (length got ≡ 0)
      → length rest ≤ suc pages * page_size
      → (first ≡ none) ⊎ (first ≡ some (length rows))
      → All (λ s. s < length got) seen
      → drain_from
          (serve version site rows)
          version
          site
          page_size
          max_rows
          (suc pages)
          (length got)
          got
          first
          seen
        ≡ drained rows
  drain_rest zero got rest first seen split left enough agrees fresh =
      drain_step zero got rest first seen split left agrees fresh (λ more.
        let size = ap length split ∙ length-append got rest in
        absurd (ground (arith, size, enough, full got rest more, more)))
  drain_rest (suc pages) got rest first seen split left enough agrees fresh =
      drain_step (suc pages) got rest first seen split left agrees fresh (λ more.
        let sizes = unread got rest split more in
        let filled = full got rest more in
        let size = ap length split ∙ length-append got rest in
        let some_left : 0 < length (drop (limit_at got) rest) =
          ground (arith, sizes.1, size, more) in
        drain_rest pages (got ++ take (limit_at got) rest) (drop (limit_at got) rest)
          (some (length rows)) (length got ∷ seen)
          (split
            ∙ ap (◌++◌ got) (sym (take-append-drop (limit_at got) rest))
            ∙ sym (append_assoc got (take (limit_at got) rest) (drop (limit_at got) rest)))
          (inl some_left) (omega (arith, sizes.1, filled, enough, times_suc (suc pages) page_size))
          (inr refl)
          (
            omega (arith, sizes.0, filled, some_size),
            All-raise (length got) (length (got ++ take (limit_at got) rest)) seen
                (omega (arith, sizes.0)) fresh,
          ))

  -- With positive page size and row bound, the drain of a getter that serves a list page by page,
  -- its cursors being positions in the list, returns the whole list when the list is within the
  -- row bound and within MAX_PAGES pages.
  pub drain_projection_group-serve :
      length rows ≤ max_pages * page_size
      → drain_projection_group (serve version site rows) version site page_size max_rows
        ≡ drained rows
  unfolding drain_projection_group
  drain_projection_group-serve enough =
      let size_fits : ltb page_size 1 ≡ false = ground (arith, some_size) in
      let room_fits : ltb max_rows 1 ≡ false = ground (arith, some_room) in
      past_guards (ltb page_size 1) (ltb max_rows 1) _ size_fits room_fits
        (drain_rest 511 [] rows none [] refl (inr refl) enough (inl refl) tt)
