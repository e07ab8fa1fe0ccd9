-- ===== src/Governance/Texts.antt =====
-- The checks of texts in decisions.py and store.py; `none` stands for the OrchestrationError.
use project_os_agentic_agile.Base.{
  ℕ, String, Bool, ◌&&◌, ◌||◌, not, Option, none, some, ◌==◌, leb, ltb, str_eq, if◌then◌else◌,
  strip_text, squeeze, text_length, has_code, has_dots, starts_with_code,
}

abbrev pub is_letter_or_digit : ℕ → Bool
is_letter_or_digit c = (leb 48 c && leb c 57) || (leb 65 c && leb c 90) || (leb 97 c && leb c 122)

abbrev pub is_id_code : ℕ → Bool
is_id_code c = is_letter_or_digit c || (c == 46) || (c == 95) || (c == 45)

abbrev pub is_path_code : ℕ → Bool
is_path_code c = (c == 47) || (c == 92)

-- _SAFE_ID_RE, a letter or digit and at most 127 characters more, and the marks that are refused.
unfoldable pub is_safe_id : String → Bool
is_safe_id text =
    starts_with_code is_letter_or_digit text
    && not (has_code (λ c. not (is_id_code c)) text)
    && leb (text_length text) 128
    && not (has_dots text)

unfoldable pub require_safe_id : String → Option String
require_safe_id value = let text = strip_text value in if is_safe_id text then some text else none

-- Whether a text names a path.
abbrev pub has_path_marker : String → Bool
has_path_marker text = has_code is_path_code text || has_dots text

unfoldable pub clean_text : String → Option String
clean_text value =
    let text = squeeze value in
    if str_eq text ""
    then none
    else if has_path_marker text
    then none
    else if ltb 2000 (text_length text)
    then none
    else some text

unfoldable pub clean_actor : String → Option String
clean_actor value =
    let text = strip_text value in
    if str_eq text ""
    then none
    else if ltb 128 (text_length text) || has_path_marker text
    then none
    else some text
