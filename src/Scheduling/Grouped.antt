-- ===== src/Scheduling/Grouped.antt =====
-- Each group holds all the rows of its key, so that what the rows of a key have, its group has.
use roster_ai.Base.{
  ◌≡◌, refl, sym, ◌∙◌, subst, Bool, true, false, List, [], ◌∷◌, inl, inr, Bool-cases, All, All-map,
  filter,
}
use roster_ai.Scheduling.Groups.{append_to, append_all, group_by, group_at, group_at-group_by}

module _ {ℓ κ} {K : Type ℓ} {V : Type κ} (eq : K → K → Bool) where
  HasDistinctKeys : List (K × List V) → Type 0
  HasDistinctKeys [] = Unit
  HasDistinctKeys (g ∷ gs) = All (λ h. eq g.0 h.0 ≡ false) gs × HasDistinctKeys gs

  fresh-append_to :
      (a c : K) (v : V) (d : List (K × List V))
      → eq a c ≡ false
      → All (λ h. eq a h.0 ≡ false) d
      → All (λ h. eq a h.0 ≡ false) (append_to eq c v d)
  fresh-append_to a c v [] e h = (e, tt)
  fresh-append_to a c v (g ∷ gs) e h = elim (Bool-cases (eq g.0 c)) [
    | inl t ↦ rw t (h.0, h.1)
    | inr t ↦ rw t (h.0, fresh-append_to a c v gs e h.1)
  ]

  append_to-HasDistinctKeys :
      (c : K) (v : V) (d : List (K × List V))
      → HasDistinctKeys d
      → HasDistinctKeys (append_to eq c v d)
  unfolding HasDistinctKeys
  append_to-HasDistinctKeys c v [] h = (tt, tt)
  append_to-HasDistinctKeys c v (g ∷ gs) h = elim (Bool-cases (eq g.0 c)) [
    | inl t ↦ rw t (h.0, h.1)
    | inr t ↦ rw t (fresh-append_to g.0 c v gs t h.0, append_to-HasDistinctKeys c v gs h.1)
  ]

  append_all-HasDistinctKeys :
      (key : V → K) (vs : List V) (d : List (K × List V))
      → HasDistinctKeys d
      → HasDistinctKeys (append_all eq key vs d)
  append_all-HasDistinctKeys key [] d h = h
  append_all-HasDistinctKeys key (v ∷ vs) d h =
      append_all-HasDistinctKeys key vs (append_to eq (key v) v d)
        (append_to-HasDistinctKeys (key v) v d h)

  group_at-later :
      (g : K × List V) (gs hs : List (K × List V))
      → All (λ h. eq g.0 h.0 ≡ false) hs
      → All (λ h. group_at eq h.0 gs ≡ h.1) hs
      → All (λ h. group_at eq h.0 (g ∷ gs) ≡ h.1) hs
  unfolding group_at
  group_at-later g gs [] n h = tt
  group_at-later g gs (x ∷ xs) n h = (rw n.0 h.0, group_at-later g gs xs n.1 h.1)

  group_at-own :
      ((a : K) → eq a a ≡ true)
      → (d : List (K × List V)) → HasDistinctKeys d
      → All (λ g. group_at eq g.0 d ≡ g.1) d
  unfolding HasDistinctKeys group_at
  group_at-own same [] h = tt
  group_at-own same (g ∷ gs) h =
      (rw (same g.0) refl, group_at-later g gs gs h.0 (group_at-own same gs h.1))

  pub All-group_by {μ} :
      (P : K → List V → Type μ)
      → ((a b : K) → eq a b ≡ true → a ≡ b)
      → ((a : K) → eq a a ≡ true)
      → (key : V → K) (vs : List V) → ((k : K) → P k (filter (λ v. eq (key v) k) vs))
      → All (λ g. P g.0 g.1) (group_by eq key vs)
  unfolding group_by HasDistinctKeys
  All-group_by P sound same key vs h =
      All-map (λ g. group_at eq g.0 (group_by eq key vs) ≡ g.1) (λ g. P g.0 g.1)
        (group_by eq key vs)
        (λ g e. subst (P g.0) (sym (group_at-group_by eq sound key g.0 vs) ∙ e) (h g.0))
        (group_at-own same (group_by eq key vs) (append_all-HasDistinctKeys key vs [] tt))
