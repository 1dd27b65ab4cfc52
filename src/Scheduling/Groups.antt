-- ===== src/Scheduling/Groups.antt =====
-- `defaultdict(list)` filled in a loop: rows by key, in the order of their keys' first occurrences.
use roster_ai.Base.{
  ◌≡◌, refl, sym, ◌∙◌, ap, subst, Bool, true, List, [], ◌∷◌, ◌++◌, if◌then◌else◌, inl, inr,
  Bool-cases, All, filter,
}

module _ {ℓ κ} {K : Type ℓ} {V : Type κ} (eq : K → K → Bool) where
  -- d[k].append(v)
  abbrev pub append_to : K → V → List (K × List V) → List (K × List V)
  append_to k v [] = (k, v ∷ []) ∷ []
  append_to k v (g ∷ gs) =
      let rest = append_to k v gs in if eq g.0 k then (g.0, g.1 ++ v ∷ []) ∷ gs else g ∷ rest

  -- for v in vs: d[key(v)].append(v)
  abbrev pub append_all : (V → K) → List V → List (K × List V) → List (K × List V)
  append_all key [] d = d
  append_all key (v ∷ vs) d = append_all key vs (append_to (key v) v d)

  unfoldable pub group_by : (V → K) → List V → List (K × List V)
  group_by key vs = append_all key vs []

  -- d[k], without the key that a defaultdict adds
  unfoldable pub group_at : K → List (K × List V) → List V
  group_at k [] = []
  group_at k (g ∷ gs) = if eq g.0 k then g.1 else group_at k gs

  -- What holds of each group holds of the group at any key.
  pub All-group_at {μ} :
      (P : K → List V → Type μ)
      → ((a b : K) → eq a b ≡ true → a ≡ b)
      → ((k : K) → P k [])
      → (k : K) (d : List (K × List V)) → All (λ g. P g.0 g.1) d
      → P k (group_at k d)
  unfolding group_at
  All-group_at P sound nil k [] h = nil k
  All-group_at P sound nil k (g ∷ gs) h = elim (Bool-cases (eq g.0 k)) [
    | inl e ↦ rw e (subst (λ c. P c g.1) (sound g.0 k e) h.0)
    | inr e ↦ rw e (All-group_at P sound nil k gs h.1)
  ]

  group_at-append_to :
      ((a b : K) → eq a b ≡ true → a ≡ b)
      → (k c : K) (v : V) (d : List (K × List V))
      → group_at k (append_to c v d) ≡ (if eq c k then group_at k d ++ v ∷ [] else group_at k d)
  unfolding group_at
  group_at-append_to sound k c v [] = elim (Bool-cases (eq c k)) [
    | inl e ↦ rw e refl
    | inr e ↦ rw e refl
  ]
  group_at-append_to sound k c v (g ∷ gs) = elim (Bool-cases (eq g.0 c)) [
    | inl e ↦
        let own : eq g.0 k ≡ eq c k = ap (λ a. eq a k) (sound g.0 c e) in
        elim (Bool-cases (eq c k)) [ inl d ↦ rw (e, own, d) refl | inr d ↦ rw (e, own, d) refl ]
    | inr e ↦ elim (Bool-cases (eq g.0 k)) [
      | inl d ↦ elim (Bool-cases (eq c k)) [
        | inl f ↦
            let other : eq g.0 c ≡ true = subst (λ a. eq g.0 a ≡ true) (sym (sound c k f)) d in
            cc (other, e)
        | inr f ↦ rw (e, d, f) refl
      ]
      | inr d ↦ rw (e, d) (group_at-append_to sound k c v gs)
    ]
  ]

  ++-assoc_cons : (xs : List V) (v : V) (ys : List V) → (xs ++ v ∷ []) ++ ys ≡ xs ++ v ∷ ys
  ++-assoc_cons [] v ys = refl
  ++-assoc_cons (x ∷ xs) v ys = ap (◌∷◌ x) (++-assoc_cons xs v ys)

  ++-nil : (xs : List V) → xs ++ [] ≡ xs
  ++-nil [] = refl
  ++-nil (x ∷ xs) = ap (◌∷◌ x) (++-nil xs)

  group_at-append_all :
      ((a b : K) → eq a b ≡ true → a ≡ b)
      → (key : V → K) (k : K) (vs : List V) (d : List (K × List V))
      → group_at k (append_all key vs d) ≡ group_at k d ++ filter (λ v. eq (key v) k) vs
  group_at-append_all sound key k [] d = sym (++-nil (group_at k d))
  group_at-append_all sound key k (v ∷ vs) d = elim (Bool-cases (eq (key v) k)) [
    | inl e ↦ rw e (
        group_at-append_all sound key k vs (append_to (key v) v d)
        ∙ ap (λ xs. xs ++ filter (λ y. eq (key y) k) vs)
            (group_at-append_to sound k (key v) v d ∙ rw e refl)
        ∙ ++-assoc_cons (group_at k d) v (filter (λ y. eq (key y) k) vs))
    | inr e ↦ rw e (
        group_at-append_all sound key k vs (append_to (key v) v d)
        ∙ ap (λ xs. xs ++ filter (λ y. eq (key y) k) vs)
            (group_at-append_to sound k (key v) v d ∙ rw e refl))
  ]

  -- The group at a key is the rows with that key, in order.
  pub group_at-group_by :
      ((a b : K) → eq a b ≡ true → a ≡ b)
      → (key : V → K) (k : K) (vs : List V)
      → group_at k (group_by key vs) ≡ filter (λ v. eq (key v) k) vs
  unfolding group_by group_at
  group_at-group_by sound key k vs = group_at-append_all sound key k vs []

  -- What each group has, the rows of any key have.
  pub All-filter {μ} :
      (P : K → List V → Type μ)
      → ((a b : K) → eq a b ≡ true → a ≡ b)
      → ((k : K) → P k [])
      → (key : V → K) (vs : List V) → All (λ g. P g.0 g.1) (group_by key vs)
      → (k : K) → P k (filter (λ v. eq (key v) k) vs)
  All-filter P sound nil key vs h k =
      subst (P k) (group_at-group_by sound key k vs)
        (All-group_at P sound nil k (group_by key vs) h)
