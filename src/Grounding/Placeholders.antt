-- ===== src/Grounding/Placeholders.antt =====
-- The placeholders of a model's answer: backend/application/grounding/placeholders.py. A text is the
-- list of its code points, and `_PLACEHOLDER.finditer` is written out: the handle's characters do not
-- include the closing brace, so that the regular expression matches in one way at most.
use mathlib.Core.Option.{map as option_map}
use roster_ai.Base.{
  ℕ, zero, suc, ◌+◌, ◌-◌, Bool, true, false, not, ◌&&◌, ◌||◌, Option, none, some, List, [], ◌∷◌,
  map, ltb, leb, ◌==◌, if◌then◌else◌, length, take, drop, filter, null,
}

abbrev pub Text : Type 0
Text = List ℕ

-- [A-Za-z0-9_-]
abbrev pub is_handle_character : ℕ → Bool
is_handle_character c =
    (leb b'A' c && leb c b'Z')
    || (leb b'a' c && leb c b'z')
    || (leb b'0' c && leb c b'9')
    || (c == b'_')
    || (c == b'-')

abbrev pub opening : Text
opening = b'{' ∷ b'{' ∷ []

abbrev pub closing : Text
closing = b'}' ∷ b'}' ∷ []

abbrev pub closes : Text → Bool
closes (a ∷ b ∷ cs) = (a == b'}') && (b == b'}')
closes _ = false

-- What `([A-Za-z0-9_-]+)\}\}` captures at the start of a text.
unfoldable pub handle_at : Text → Option Text
handle_at [] = none
handle_at (c ∷ cs) =
    let rest = handle_at cs in
    if is_handle_character c
    then (if closes cs then some (c ∷ []) else option_map (λ h. c ∷ h) rest)
    else none

-- What `_PLACEHOLDER` captures at the start of a text.
unfoldable pub match_at : Text → Option Text
match_at (a ∷ b ∷ cs) = if (a == b'{') && (b == b'{') then handle_at cs else none
match_at _ = none

-- A match object: `start()`, `end()` and `group(1)`
pub record Match : Type 0 where
  pub start : ℕ
  pub stop : ℕ
  pub handle : Text

abbrev pub match_of : ℕ → Text → Match
match_of i h = record { start = i; stop = i + length h + 4; handle = h }

-- The matches in a text that is read from position `i`, with so many characters left of the last
-- match.
unfoldable pub matches_from : ℕ → ℕ → Text → List Match
matches_from i k [] = []
matches_from i (suc k) (c ∷ cs) = matches_from (suc i) k cs
matches_from i zero (c ∷ cs) = elim (match_at (c ∷ cs)) [
  | none ↦ matches_from (suc i) 0 cs
  | some h ↦ match_of i h ∷ matches_from (suc i) (length h + 3) cs
]

-- `_PLACEHOLDER.finditer`
abbrev pub finditer : Text → List Match
finditer text = matches_from 0 0 text

-- `ProsePart` and `PlaceholderPart`
pub data AnswerPart : Type 0 where
  prose : Text → AnswerPart
  placeholder : Text → AnswerPart

-- text[start:stop]
abbrev pub slice : ℕ → ℕ → Text → Text
slice start stop text = take (stop - start) (drop start text)

-- The loop over the matches and the prose after the last one.
unfoldable pub parts_from : Text → ℕ → List Match → List AnswerPart
parts_from text position [] =
    if ltb position (length text) then prose (drop position text) ∷ [] else []
parts_from text position (m ∷ ms) =
    let rest = placeholder m.handle ∷ parts_from text m.stop ms in
    if ltb position m.start then prose (slice position m.start text) ∷ rest else rest

-- not isinstance(part, ProsePart) or part.text
abbrev pub is_kept : AnswerPart → Bool
is_kept (prose text) = not (null text)
is_kept (placeholder h) = true

unfoldable pub parse_answer_text : Text → List AnswerPart
parse_answer_text text = filter is_kept (parts_from text 0 (finditer text))

unfoldable pub placeholder_handles : Text → List Text
placeholder_handles text = map (λ m. m.handle) (finditer text)
