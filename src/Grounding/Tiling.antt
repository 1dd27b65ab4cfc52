-- ===== src/Grounding/Tiling.antt =====
-- The parts of an answer make up its text, and their handles are those of `placeholder_handles`.
use mathlib.Core.List.{append_assoc, append-nil}
use roster_ai.Base.{
  ℕ, zero, suc, ◌+◌, ◌-◌, ◌≤◌, ◌≡◌, refl, sym, ap, ◌∙◌, true, false, none, some, List, [], ◌∷◌,
  ◌++◌, map, arith, ltb, ◌==◌, if◌then◌else◌, length, take, drop, filter, Bool-cases, Option-cases,
  inl, inr, length-append, ◌&&◌,
}
use roster_ai.Grounding.Placeholders.{
  Text, opening, closing, closes, handle_at, match_at, Match, match_of, matches_from, finditer,
  AnswerPart, prose, placeholder, slice, parts_from, is_kept, parse_answer_text,
  placeholder_handles, is_handle_character,
}

-- The text that a part stands for.
abbrev pub written : AnswerPart → Text
written (prose text) = text
written (placeholder h) = opening ++ (h ++ closing)

abbrev pub written_all : List AnswerPart → Text
written_all [] = []
written_all (p ∷ ps) = written p ++ written_all ps

-- The handles of the placeholders among the parts.
abbrev pub handles_of : List AnswerPart → List Text
handles_of [] = []
handles_of (prose text ∷ ps) = handles_of ps
handles_of (placeholder h ∷ ps) = h ∷ handles_of ps

written_all-filter : (ps : List AnswerPart) → written_all (filter is_kept ps) ≡ written_all ps
written_all-filter [] = refl
written_all-filter (prose [] ∷ ps) = written_all-filter ps
written_all-filter (prose (c ∷ cs) ∷ ps) = ap (λ t. (c ∷ cs) ++ t) (written_all-filter ps)
written_all-filter (placeholder h ∷ ps) =
    ap (λ t. (opening ++ (h ++ closing)) ++ t) (written_all-filter ps)

handles_of-filter : (ps : List AnswerPart) → handles_of (filter is_kept ps) ≡ handles_of ps
handles_of-filter [] = refl
handles_of-filter (prose [] ∷ ps) = handles_of-filter ps
handles_of-filter (prose (c ∷ cs) ∷ ps) = handles_of-filter ps
handles_of-filter (placeholder h ∷ ps) = ap (λ t. h ∷ t) (handles_of-filter ps)

handles_of-parts_from :
    (text : Text) (position : ℕ) (ms : List Match)
    → handles_of (parts_from text position ms) ≡ map (λ m. m.handle) ms
unfolding parts_from
handles_of-parts_from text position [] =
    elim (ltb position (length text))
      as (λ b. handles_of (if b then prose (drop position text) ∷ [] else []) ≡ []) [
        | true ↦ refl
        | false ↦ refl
      ]
handles_of-parts_from text position (m ∷ ms) =
    let rest = placeholder m.handle ∷ parts_from text m.stop ms in
    elim (ltb position m.start)
      as (λ b.
        handles_of (if b then prose (slice position m.start text) ∷ rest else rest)
        ≡ m.handle ∷ map (λ m. m.handle) ms) [
          | true ↦ ap (λ t. m.handle ∷ t) (handles_of-parts_from text m.stop ms)
          | false ↦ ap (λ t. m.handle ∷ t) (handles_of-parts_from text m.stop ms)
        ]

-- The handles of the placeholders that parse_answer_text returns are what placeholder_handles
-- returns, in the same order.
pub handles_of-parse_answer_text :
    (text : Text) → handles_of (parse_answer_text text) ≡ placeholder_handles text
unfolding parse_answer_text placeholder_handles
handles_of-parse_answer_text text =
    handles_of-filter (parts_from text 0 (finditer text))
    ∙ handles_of-parts_from text 0 (finditer text)

append-drop : (n : ℕ) (cs : Text) → take n cs ++ drop n cs ≡ cs
append-drop zero cs = refl
append-drop (suc n) [] = refl
append-drop (suc n) (c ∷ cs) = ap (λ t. c ∷ t) (append-drop n cs)

drop_empty : (n : ℕ) → drop {A = ℕ} n [] ≡ []
drop_empty zero = refl
drop_empty (suc n) = refl

drop_past : (n : ℕ) (cs : Text) → length cs ≤ n → drop n cs ≡ []
drop_past zero [] h = refl
drop_past (suc n) [] h = refl
drop_past zero (c ∷ cs) h = ground (arith, h)
drop_past (suc n) (c ∷ cs) h = drop_past n cs (omega arith)

pub drop-drop : (n m : ℕ) (cs : Text) → drop m (drop n cs) ≡ drop (n + m) cs
drop-drop zero m cs = ap (λ (k : ℕ). drop k cs) (omega arith)
drop-drop (suc n) m [] = drop_empty m ∙ sym (drop_empty (suc n + m))
drop-drop (suc n) m (c ∷ cs) =
    drop-drop n m cs ∙ ap (λ (k : ℕ). drop k (c ∷ cs)) {x = suc (n + m)} (omega arith)

pub drop-append : (xs ys : Text) → drop (length xs) (xs ++ ys) ≡ ys
drop-append [] ys = refl
drop-append (x ∷ xs) ys = drop-append xs ys

closes_lem : (cs : Text) → closes cs ≡ true → (rest : Text) × (cs ≡ closing ++ rest)
closes_lem [] h = ground arith
closes_lem (a ∷ []) h = ground arith
closes_lem (a ∷ b ∷ cs) h = (cs, ground arith)

-- A captured handle stands at the start of the text, before the closing braces.
pub handle_at_lem :
    (cs h : Text) → handle_at cs ≡ some h → (rest : Text) × (cs ≡ h ++ (closing ++ rest))
unfolding handle_at
handle_at_lem [] h e = ground arith
handle_at_lem (c ∷ cs) h e = elim (Bool-cases (is_handle_character c)) [
  | inr f ↦ ground (arith, e, f)
  | inl t ↦ elim (Bool-cases (closes cs)) [
    | inl z ↦ let r = closes_lem cs z in (r.0, ground (arith, e, t, z, r.1))
    | inr f ↦ elim (Option-cases (handle_at cs)) [
      | inl n ↦ ground (arith, e, t, f, n)
      | inr (k, p) ↦ let r = handle_at_lem cs k p in (r.0, ground (arith, e, t, f, p, r.1))
    ]
  ]
]

pub match_at_lem :
    (cs h : Text)
    → match_at cs ≡ some h
    → (rest : Text) × (cs ≡ opening ++ (h ++ (closing ++ rest)))
unfolding match_at
match_at_lem [] h e = ground arith
match_at_lem (a ∷ []) h e = ground arith
match_at_lem (a ∷ b ∷ cs) h e = elim (Bool-cases ((a == b'{') && (b == b'{'))) [
  | inr f ↦ ground (arith, e, f)
  | inl t ↦ let r = handle_at_lem cs h (ground (arith, e, t)) in (r.0, ground (arith, t, r.1))
]

-- The matches stand in the text one after another from a position on, each where it says.
pub data IsTiling (text : Text) : ℕ → List Match → Type 0 where
  ends : {p : ℕ} → IsTiling text p []
  next :
      {p : ℕ} {m : Match} {ms : List Match}
      → p ≤ m.start
      → drop m.start text ≡ written (placeholder m.handle) ++ drop m.stop text
      → IsTiling text m.stop ms
      → IsTiling text p (m ∷ ms)

IsTiling-mono :
    {text : Text} (p q : ℕ) (ms : List Match) → p ≤ q → IsTiling text q ms → IsTiling text p ms
IsTiling-mono p q [] h ends = ends
IsTiling-mono p q (m ∷ ms) h (next l e t) = next (omega arith) e t

pub length-written : (h : Text) → length (written (placeholder h)) ≡ length h + 4
length-written h = omega (arith, length-append h closing)

-- What a match at the start of the rest of a text says of the whole text.
match_of-stands :
    (text : Text) (i : ℕ) (h : Text)
    → match_at (drop i text) ≡ some h
    → drop i text ≡ written (placeholder h) ++ drop (i + length h + 4) text
match_of-stands text i h e =
    let r = match_at_lem (drop i text) h e in
    let here = r.1 ∙ ap (λ (t : Text). opening ++ t) (sym (append_assoc h closing r.0)) in
    let rest =
      ap (λ (n : ℕ). drop n text) (omega (arith, length-written h))
      ∙ (sym (drop-drop i (length (written (placeholder h))) text)
          ∙ (ap (drop (length (written (placeholder h)))) here
              ∙ drop-append (written (placeholder h)) r.0)) in
    here ∙ ap (λ (t : Text). written (placeholder h) ++ t) (sym rest)

pub drop_tail :
    (text : Text) (i : ℕ) {c : ℕ} {cs : Text} → drop i text ≡ c ∷ cs → drop (suc i) text ≡ cs
drop_tail text i e =
    ap (λ (n : ℕ). drop n text) {x = suc i} {y = i + 1} (omega arith)
    ∙ (sym (drop-drop i 1 text) ∙ ap (drop 1) e)

matches_from-IsTiling :
    (text : Text) (i k : ℕ) (cs : Text)
    → drop i text ≡ cs
    → IsTiling text (i + k) (matches_from i k cs)
unfolding matches_from
matches_from-IsTiling text i k [] e = ends
matches_from-IsTiling text i (suc k) (c ∷ cs) e =
    IsTiling-mono (i + suc k) (suc i + k) (matches_from (suc i) k cs) (omega arith)
      (matches_from-IsTiling text (suc i) k cs (drop_tail text i e))
matches_from-IsTiling text i zero (c ∷ cs) e =
    elim (match_at (c ∷ cs))
        as (λ o.
          match_at (c ∷ cs) ≡ o
          → IsTiling text (i + 0) (elim o [
            | none ↦ matches_from (suc i) 0 cs
            | some h ↦ match_of i h ∷ matches_from (suc i) (length h + 3) cs
          ])) [
            | none ↦ λ n.
                IsTiling-mono (i + 0) (suc i + 0) (matches_from (suc i) 0 cs) (omega arith)
                  (matches_from-IsTiling text (suc i) 0 cs (drop_tail text i e))
            | some h ↦ λ s. next (omega arith) (match_of-stands text i h (ap match_at e ∙ s)) (
                IsTiling-mono (i + length h + 4) (suc i + (length h + 3))
                  (matches_from (suc i) (length h + 3) cs) (omega arith)
                  (matches_from-IsTiling text (suc i) (length h + 3) cs (drop_tail text i e)))
          ]
      refl

slice-drop : (text : Text) (p q : ℕ) → p ≤ q → slice p q text ++ drop q text ≡ drop p text
slice-drop text p q l =
    ap (λ (t : Text). slice p q text ++ t)
      (ap (λ (n : ℕ). drop n text) {x = q} {y = p + (q - p)} (omega (arith, l))
        ∙ sym (drop-drop p (q - p) text))
    ∙ append-drop (q - p) (drop p text)

written_all-parts_from :
    (text : Text) (p : ℕ) (ms : List Match)
    → IsTiling text p ms
    → written_all (parts_from text p ms) ≡ drop p text
unfolding parts_from
written_all-parts_from text p [] t =
    elim (ltb p (length text))
        as (λ b.
          ltb p (length text) ≡ b
          → written_all (if b then prose (drop p text) ∷ [] else []) ≡ drop p text) [
            | true ↦ λ e. append-nil (drop p text)
            | false ↦ λ e. sym (drop_past p text (ground (arith, e)))
          ]
      refl
written_all-parts_from text p (m ∷ ms) (next l e t) =
    let rest = placeholder m.handle ∷ parts_from text m.stop ms in
    let after =
      ap (λ (t : Text). written (placeholder m.handle) ++ t)
        (written_all-parts_from text m.stop ms t)
      ∙ sym e in
    elim (ltb p m.start)
        as (λ b.
          ltb p m.start ≡ b
          → written_all (if b then prose (slice p m.start text) ∷ rest else rest) ≡ drop p text) [
            | true ↦ λ z.
                ap (λ (t : Text). slice p m.start text ++ t) after ∙ slice-drop text p m.start l
            | false ↦ λ z.
                after ∙ ap (λ (n : ℕ). drop n text) {x = m.start} {y = p} (ground (arith, z, l))
          ]
      refl

-- The parts of an answer, written one after another with each placeholder's braces, are its text.
pub written_all-parse_answer_text : (text : Text) → written_all (parse_answer_text text) ≡ text
unfolding parse_answer_text
written_all-parse_answer_text text =
    written_all-filter (parts_from text 0 (finditer text))
    ∙ written_all-parts_from text 0 (finditer text) (
        IsTiling-mono 0 (0 + 0) (finditer text) (omega arith)
          (matches_from-IsTiling text 0 0 text refl))
