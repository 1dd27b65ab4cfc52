-- ===== src/Grounding/Printed.antt =====
-- An answer that is written from its parts is read as these parts.
use mathlib.Core.List.{append_assoc, append-nil}
use roster_ai.Base.{
  ℕ, zero, suc, ◌+◌, ◌-◌, ◌<◌, ◌≡◌, refl, sym, ap, ap₂, ◌∙◌, true, false, none, some, List, [], ◌∷◌,
  ◌++◌, arith, ltb, ◌==◌, if◌then◌else◌, length, take, drop, filter, null, All, length-append,
}
use roster_ai.Grounding.Placeholders.{
  Text, closing, closes, handle_at, match_at, Match, match_of, matches_from, AnswerPart, prose,
  placeholder, slice, parts_from, is_kept, parse_answer_text, is_handle_character,
}
use roster_ai.Grounding.Tiling.{written, written_all, drop-drop, drop-append, length-written}

-- A text that may stand between placeholders: not empty, without an opening brace.
pub record IsProse (t : Text) : Type 0 where
  pub filled : null t ≡ false
  pub braceless : All (λ c. (c == b'{') ≡ false) t

-- One or more of the handle's characters.
pub record IsHandle (h : Text) : Type 0 where
  pub filled : null h ≡ false
  pub characters : All (λ c. is_handle_character c ≡ true) h

-- Parts in the form that the parser gives: no empty prose, and no two proses side by side.
pub data IsNormal : List AnswerPart → Type 0 where
  blank : IsNormal []
  handle_first :
      {h : Text} {ps : List AnswerPart} → IsHandle h → IsNormal ps → IsNormal (placeholder h ∷ ps)
  prose_last : {t : Text} → IsProse t → IsNormal (prose t ∷ [])
  prose_first :
      {t h : Text} {ps : List AnswerPart}
      → IsProse t
      → IsHandle h
      → IsNormal ps
      → IsNormal (prose t ∷ placeholder h ∷ ps)

closes-handle : (d : ℕ) (cs : Text) → is_handle_character d ≡ true → closes (d ∷ cs) ≡ false
closes-handle d [] h = refl
closes-handle d (e ∷ cs) h = ground (arith, h)

handle_at-closing : (h rest : Text) → IsHandle h → handle_at (h ++ (closing ++ rest)) ≡ some h
unfolding handle_at
handle_at-closing [] rest i = ground (arith, i.filled)
handle_at-closing (c ∷ []) rest i = ground (arith, i.characters.0)
handle_at-closing (c ∷ d ∷ h) rest i = ground (
  arith,
  i.characters.0,
  closes-handle d (h ++ (closing ++ rest)) i.characters.1.0,
  handle_at-closing (d ∷ h) rest (record { filled = refl; characters = i.characters.1 }),
)

matches_from-skip :
    (i k : ℕ) (xs ys : Text)
    → length xs ≡ k
    → matches_from i k (xs ++ ys) ≡ matches_from (i + k) 0 ys
unfolding matches_from
matches_from-skip i zero [] ys e = ap (λ (n : ℕ). matches_from n 0 ys) (omega arith)
matches_from-skip i (suc k) [] ys e = ground (arith, e)
matches_from-skip i zero (x ∷ xs) ys e = ground (arith, e)
matches_from-skip i (suc k) (x ∷ xs) ys e =
    matches_from-skip (suc i) k xs ys (omega (arith, e))
    ∙ ap (λ (n : ℕ). matches_from n 0 ys) (omega arith)

match_at-other : (c : ℕ) (cs : Text) → (c == b'{') ≡ false → match_at (c ∷ cs) ≡ none
unfolding match_at
match_at-other c [] h = refl
match_at-other c (d ∷ cs) h = ground (arith, h)

matches_from-prose :
    (i : ℕ) (t ys : Text)
    → All (λ c. (c == b'{') ≡ false) t
    → matches_from i 0 (t ++ ys) ≡ matches_from (i + length t) 0 ys
unfolding matches_from
matches_from-prose i [] ys h = ap (λ (n : ℕ). matches_from n 0 ys) (omega arith)
matches_from-prose i (c ∷ t) ys h =
    ap
      (λ o. elim o [
        | none ↦ matches_from (suc i) 0 (t ++ ys)
        | some g ↦ match_of i g ∷ matches_from (suc i) (length g + 3) (t ++ ys)
      ])
      (match_at-other c (t ++ ys) h.0)
    ∙ (matches_from-prose (suc i) t ys h.1 ∙ ap (λ (n : ℕ). matches_from n 0 ys) (omega arith))

matches_from-placeholder :
    (i : ℕ) (h ys : Text)
    → IsHandle h
    → matches_from i 0 (written (placeholder h) ++ ys)
      ≡ match_of i h ∷ matches_from (i + length h + 4) 0 ys
unfolding matches_from match_at
matches_from-placeholder i h ys k =
    ap
      (λ o. elim o [
        | none ↦ matches_from (suc i) 0 (b'{' ∷ ((h ++ closing) ++ ys))
        | some g ↦
            match_of i g ∷ matches_from (suc i) (length g + 3) (b'{' ∷ ((h ++ closing) ++ ys))
      ])
      (ap handle_at (append_assoc h closing ys) ∙ handle_at-closing h ys k)
    ∙ ap (λ (ms : List Match). match_of i h ∷ ms)
        (matches_from-skip (suc i) (length h + 3) (b'{' ∷ (h ++ closing)) ys
            (omega (arith, length-append h closing))
          ∙ ap (λ (n : ℕ). matches_from n 0 ys) (omega arith))

length-drop : (n : ℕ) (cs : Text) → length (drop n cs) ≡ length cs - n
length-drop zero cs = omega arith
length-drop (suc n) [] = omega arith
length-drop (suc n) (c ∷ cs) = omega (arith, length-drop n cs)

take-append : (xs ys : Text) → take (length xs) (xs ++ ys) ≡ xs
take-append [] ys = refl
take-append (x ∷ xs) ys = ap (λ t. x ∷ t) (take-append xs ys)

filled_length : (t : Text) → null t ≡ false → 0 < length t
filled_length [] h = ground (arith, h)
filled_length (c ∷ t) h = omega arith

past_handle :
    (text : Text) (p : ℕ) (h r : Text)
    → drop p text ≡ written (placeholder h) ++ r
    → drop (p + length h + 4) text ≡ r
past_handle text p h r e =
    ap (λ (n : ℕ). drop n text) (omega (arith, length-written h))
    ∙ (sym (drop-drop p (length (written (placeholder h))) text)
        ∙ (ap (drop (length (written (placeholder h)))) e
            ∙ drop-append (written (placeholder h)) r))

past_prose :
    (text : Text) (p : ℕ) (t r : Text) → drop p text ≡ t ++ r → drop (p + length t) text ≡ r
past_prose text p t r e =
    sym (drop-drop p (length t) text) ∙ (ap (drop (length t)) e ∙ drop-append t r)

parts_from-here :
    (text : Text) (p : ℕ) (h : Text) (ms : List Match)
    → parts_from text p (match_of p h ∷ ms) ≡ placeholder h ∷ parts_from text (p + length h + 4) ms
unfolding parts_from
parts_from-here text p h ms =
    ap
      (λ b.
        let rest = placeholder h ∷ parts_from text (p + length h + 4) ms in
        if b then prose (slice p p text) ∷ rest else rest)
      {x = ltb p p} {y = false} (ground arith)

parts_from-later :
    (text : Text) (p : ℕ) (t r h : Text) (ms : List Match)
    → null t ≡ false
    → drop p text ≡ t ++ r
    → parts_from text p (match_of (p + length t) h ∷ ms)
      ≡ prose t ∷ placeholder h ∷ parts_from text (p + length t + length h + 4) ms
unfolding parts_from
parts_from-later text p t r h ms f e =
    let rest = placeholder h ∷ parts_from text (p + length t + length h + 4) ms in
    let q = p + length t in
    ap (λ b. if b then prose (slice p q text) ∷ rest else rest) {x = ltb p q} {y = true}
      (ground (arith, filled_length t f))
    ∙ ap (λ (s : Text). prose s ∷ rest)
        (ap₂ (λ (n : ℕ) (s : Text). take n s) {x = q - p} {y = length t} (omega arith) e
          ∙ take-append t r)

parts_from-end :
    (text : Text) (p : ℕ) (t : Text)
    → null t ≡ false
    → drop p text ≡ t
    → parts_from text p [] ≡ prose t ∷ []
unfolding parts_from
parts_from-end text p t f e =
    ap (λ b. if b then prose (drop p text) ∷ [] else []) {x = ltb p (length text)} {y = true}
      (ground (arith, filled_length t f, length-drop p text, ap length e))
    ∙ ap (λ (s : Text). prose s ∷ []) e

parts_from-stop : (text : Text) (p : ℕ) → drop p text ≡ [] → parts_from text p [] ≡ []
unfolding parts_from
parts_from-stop text p e =
    ap (λ b. if b then prose (drop p text) ∷ [] else []) {x = ltb p (length text)} {y = false}
      (ground (arith, length-drop p text, ap length e))

parts_from-written_all :
    (text : Text) (p : ℕ) (ps : List AnswerPart)
    → IsNormal ps
    → drop p text ≡ written_all ps
    → parts_from text p (matches_from p 0 (written_all ps)) ≡ ps
unfolding matches_from
parts_from-written_all text p [] blank e = parts_from-stop text p e
parts_from-written_all text p (placeholder h ∷ ps) (handle_first k n) e =
    let q = p + length h + 4 in
    ap (parts_from text p) (matches_from-placeholder p h (written_all ps) k)
    ∙ (parts_from-here text p h (matches_from q 0 (written_all ps))
        ∙ ap (λ (r : List AnswerPart). placeholder h ∷ r)
            (parts_from-written_all text q ps n (past_handle text p h (written_all ps) e)))
parts_from-written_all text p (prose t ∷ []) (prose_last k) e =
    ap (parts_from text p) (matches_from-prose p t [] k.braceless)
    ∙ parts_from-end text p t k.filled (e ∙ append-nil t)
parts_from-written_all text p (prose t ∷ placeholder h ∷ ps) (prose_first j k n) e =
    let r = written (placeholder h) ++ written_all ps in
    let q = p + length t + length h + 4 in
    ap (parts_from text p) (
      matches_from-prose p t r j.braceless
      ∙ matches_from-placeholder (p + length t) h (written_all ps) k)
    ∙ (parts_from-later text p t r h (matches_from q 0 (written_all ps)) j.filled e
        ∙ ap (λ (rest : List AnswerPart). prose t ∷ placeholder h ∷ rest)
            (parts_from-written_all text q ps n
              (past_handle text (p + length t) h (written_all ps) (past_prose text p t r e))))
parts_from-written_all text p (prose t ∷ prose s ∷ ps) n e = elim n [ ]

filter-IsNormal : (ps : List AnswerPart) → IsNormal ps → filter is_kept ps ≡ ps
filter-IsNormal [] blank = refl
filter-IsNormal (placeholder h ∷ ps) (handle_first k n) =
    ap (λ (r : List AnswerPart). placeholder h ∷ r) (filter-IsNormal ps n)
filter-IsNormal (prose [] ∷ []) (prose_last k) = ground (arith, k.filled)
filter-IsNormal (prose (c ∷ t) ∷ []) (prose_last k) = refl
filter-IsNormal (prose [] ∷ placeholder h ∷ ps) (prose_first j k n) = ground (arith, j.filled)
filter-IsNormal (prose (c ∷ t) ∷ placeholder h ∷ ps) (prose_first j k n) =
    ap (λ (r : List AnswerPart). prose (c ∷ t) ∷ placeholder h ∷ r) (filter-IsNormal ps n)
filter-IsNormal (prose [] ∷ prose s ∷ ps) n = elim n [ ]
filter-IsNormal (prose (c ∷ t) ∷ prose s ∷ ps) n = elim n [ ]

-- Parts written one after another are read as the same parts, when every handle has one or more
-- of the handle's characters, every prose is not empty and has no opening brace, and no two
-- proses stand side by side.
pub parse_answer_text-written_all :
    (ps : List AnswerPart) → IsNormal ps → parse_answer_text (written_all ps) ≡ ps
unfolding parse_answer_text
parse_answer_text-written_all ps n =
    ap (filter is_kept) (parts_from-written_all (written_all ps) 0 ps n refl) ∙ filter-IsNormal ps n
