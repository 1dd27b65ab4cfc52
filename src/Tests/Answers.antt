-- ===== src/Tests/Answers.antt =====
-- An answer with two placeholders, the second after a malformed one.
use roster_ai.Base.{◌≡◌, refl, List, [], ◌∷◌, arith}
use roster_ai.Grounding.Placeholders.{
  Text, AnswerPart, prose, placeholder, parse_answer_text, placeholder_handles, parts_from,
  matches_from, match_at, handle_at,
}
use roster_ai.Grounding.Tiling.{
  written_all, handles_of, written_all-parse_answer_text, handles_of-parse_answer_text,
}
use roster_ai.Grounding.Printed.{
  IsProse, IsHandle, blank, handle_first, prose_first, parse_answer_text-written_all,
}

abbrev r1 : Text
r1 = b'r' ∷ b'1' ∷ []

abbrev w2 : Text
w2 = b'w' ∷ b'2' ∷ []

-- "{{r1}}h {{w2}}"
abbrev two_parts : List AnswerPart
two_parts = placeholder r1 ∷ prose (b'h' ∷ b' ' ∷ []) ∷ placeholder w2 ∷ []

-- "{{}} {{r1}}"
abbrev malformed : Text
malformed = b'{' ∷ b'{' ∷ b'}' ∷ b'}' ∷ b' ' ∷ b'{' ∷ b'{' ∷ b'r' ∷ b'1' ∷ b'}' ∷ b'}' ∷ []

malformed_is_prose :
    parse_answer_text malformed
    ≡ prose (b'{' ∷ b'{' ∷ b'}' ∷ b'}' ∷ b' ' ∷ []) ∷ placeholder r1 ∷ []
unfolding parse_answer_text parts_from matches_from match_at handle_at
malformed_is_prose = refl

written_all-parse_answer_text_example : written_all (parse_answer_text malformed) ≡ malformed
written_all-parse_answer_text_example = written_all-parse_answer_text malformed

handles_of-parse_answer_text_example :
    handles_of (parse_answer_text malformed) ≡ placeholder_handles malformed
handles_of-parse_answer_text_example = handles_of-parse_answer_text malformed

r1-IsHandle : IsHandle r1
r1-IsHandle = record { filled = refl; characters = ground arith }

w2-IsHandle : IsHandle w2
w2-IsHandle = record { filled = refl; characters = ground arith }

h-IsProse : IsProse (b'h' ∷ b' ' ∷ [])
h-IsProse = record { filled = refl; braceless = ground arith }

parse_answer_text-written_all_example : parse_answer_text (written_all two_parts) ≡ two_parts
parse_answer_text-written_all_example =
    parse_answer_text-written_all two_parts
      (handle_first r1-IsHandle (prose_first h-IsProse w2-IsHandle blank))
