-- ===== src/Routines/Checks.antt =====
-- crates/bokkie-gateway/src/routines/store.rs: the checks of a routine's name and prompt. The text
-- of the refusal, which the user reads, is left out.
use bokkie.Prelude.{
  ℕ, ◌+◌, Bool, true, false, not, ◌&&◌, ◌||◌, Option, none, some, [], ◌∷◌, length, leb, ltb, ◌==◌,
  if◌then◌else◌,
}
use bokkie.Protocol.Routines.{Text}
use bokkie.Protocol.Chars.{trim, is_control, same}

abbrev pub max_name_chars : ℕ
max_name_chars = 60

abbrev pub max_prompt_chars : ℕ
max_prompt_chars = 8000

unfoldable pub has_newline : Text → Bool
has_newline [] = false
has_newline (c ∷ cs) = (c == b'\n') || has_newline cs

unfoldable pub has_control : Text → Bool
unfolding is_control
has_control [] = false
has_control (c ∷ cs) = (is_control c && not (c == b'\n') && not (c == b'\t')) || has_control cs

unfoldable pub check_text : (max : ℕ) → (one_line : Bool) → Text → Option Text
unfolding trim has_newline has_control
check_text max one_line text =
    let value = trim text in
    if (length value == 0) || ltb max (length value)
    then none
    else if one_line && has_newline value
    then none
    else if has_control value
    then none
    else some value

unfoldable pub check_name : Text → Option Text
unfolding check_text
check_name name = check_text max_name_chars true name

unfoldable pub check_prompt : Text → Option Text
unfolding check_text
check_prompt prompt = check_text max_prompt_chars false prompt

-- `COLLATE NOCASE`, which folds the letters of ASCII.
unfoldable pub lower : ℕ → ℕ
lower c = if leb b'A' c && leb c b'Z' then c + 32 else c

unfoldable pub fold : Text → Text
unfolding lower
fold [] = []
fold (c ∷ cs) = lower c ∷ fold cs

unfoldable pub same_name : Text → Text → Bool
unfolding fold same
same_name a b = same (fold a) (fold b)
