-- ===== src/Base/Text.antt =====
-- Python's operations on texts, for ASCII texts: a text is read as its list of code points.
use Prim.Native.Nat.{ℕ, zero, suc, ◌+◌, ◌-◌}
use Prim.Native.String.{String, [] as no_text, ◌∷◌ as ◌::◌, ◌++◌ as append}
use Prim.Native.Char.{code}
use text.Mathlib.Text.{◌==◌ as text_eq}
use mathlib.Core.Bool.{Bool, true, false, ◌&&◌, ◌||◌}
use mathlib.Core.List.{List, [], ◌∷◌}
use project_os_agentic_agile.Base.Tests.{◌==◌, leb, if◌then◌else◌}

abbrev pub codes : String → List ℕ
codes no_text = []
codes (c :: s) = code c ∷ codes s

abbrev pub same_codes : List ℕ → List ℕ → Bool
same_codes [] [] = true
same_codes [] (_ ∷ _) = false
same_codes (_ ∷ _) [] = false
same_codes (c ∷ s) (d ∷ t) = (c == d) && same_codes s t

-- s[:n]
abbrev pub prefix : ℕ → String → String
prefix zero s = ""
prefix (suc n) no_text = ""
prefix (suc n) (c :: s) = c :: prefix n s

abbrev pub upper_code : ℕ → ℕ
upper_code c = if leb 97 c && leb c 122 then c - 32 else c

abbrev pub lower_code : ℕ → ℕ
lower_code c = if leb 65 c && leb c 90 then c + 32 else c

abbrev pub map_codes : (ℕ → ℕ) → List ℕ → List ℕ
map_codes f [] = []
map_codes f (c ∷ s) = f c ∷ map_codes f s

-- s.upper() and s.lower()
abbrev pub upper : List ℕ → List ℕ
upper s = map_codes upper_code s

abbrev pub lower : List ℕ → List ℕ
lower s = map_codes lower_code s

abbrev pub is_space : ℕ → Bool
is_space c = (leb 9 c && leb c 13) || (leb 28 c && leb c 32)

-- s.lstrip() for the characters of a test.
abbrev pub lstrip : (ℕ → Bool) → List ℕ → List ℕ
lstrip p [] = []
lstrip p (c ∷ s) = if p c then lstrip p s else c ∷ s

abbrev pub reverse_codes : List ℕ → List ℕ → List ℕ
reverse_codes [] done = done
reverse_codes (c ∷ s) done = reverse_codes s (c ∷ done)

-- s.strip()
abbrev pub strip : List ℕ → List ℕ
strip s = reverse_codes (lstrip is_space (reverse_codes (lstrip is_space s) [])) []

-- s.strip(), as a text.
abbrev pub lstrip_text : String → String
lstrip_text no_text = ""
lstrip_text (c :: s) = if is_space (code c) then lstrip_text s else c :: s

abbrev pub rstrip_text : String → String
rstrip_text no_text = ""
rstrip_text (c :: s) =
    let rest = rstrip_text s in if is_space (code c) && text_eq rest "" then "" else c :: rest

abbrev pub strip_text : String → String
strip_text s = rstrip_text (lstrip_text s)

-- Whether a word was read, and white space after it.
pub data Gap : Type 0 where
  start word gap : Gap

-- " ".join(s.split())
abbrev pub squeeze_from : Gap → String → String
squeeze_from g no_text = ""
squeeze_from start (c :: s) =
    if is_space (code c) then squeeze_from start s else c :: squeeze_from word s
squeeze_from word (c :: s) =
    if is_space (code c) then squeeze_from gap s else c :: squeeze_from word s
squeeze_from gap (c :: s) =
    if is_space (code c) then squeeze_from gap s else append " " (c :: squeeze_from word s)

abbrev pub squeeze : String → String
squeeze s = squeeze_from start s

-- len(s), and whether a character, or ".." , is in it.
abbrev pub text_length : String → ℕ
text_length no_text = 0
text_length (c :: s) = text_length s + 1

abbrev pub has_code : (ℕ → Bool) → String → Bool
has_code p no_text = false
has_code p (c :: s) = if p (code c) then true else has_code p s

abbrev pub starts_with_code : (ℕ → Bool) → String → Bool
starts_with_code p no_text = false
starts_with_code p (c :: s) = p (code c)

-- Whether two dots follow each other; the flag says that the last character was a dot.
abbrev pub has_dots_from : Bool → String → Bool
has_dots_from dot no_text = false
has_dots_from dot (c :: s) = if dot && (code c == 46) then true else has_dots_from (code c == 46) s

abbrev pub has_dots : String → Bool
has_dots s = has_dots_from false s
