-- ===== src/Detection/Tokens.antt =====
-- detection_engineering/evaluator.py: _tokens, and the test that the tokens are the whole text.
use threat_scope_xdr.Prelude.{
  ℕ, ◌+◌, ◌-◌, ◌*◌, String, ◌≡◌, refl, Bool, true, false, not, ◌&&◌, ◌||◌, Option, none, some, List,
  [], ◌∷◌, ◌++◌, leb, ◌==◌, if◌then◌else◌, nonempty, elem, is_space, concat,
}
use Prim.Native.Char.{Char, code}

-- the tables of Unicode that `str.lower` reads, which are not in this repository
pub record Python : Type 0 where
  pub lower : String → String

abbrev is_digit : ℕ → Bool
is_digit c = leb b'0' c && leb c b'9'

abbrev is_letter : ℕ → Bool
is_letter c = (leb b'A' c && leb c b'Z') || (leb b'a' c && leb c b'z')

-- `\w`, for a text of ASCII characters
abbrev is_word : ℕ → Bool
is_word c = is_digit c || is_letter c || c == b'_'

-- `[A-Za-z0-9_*-]`
abbrev is_name : ℕ → Bool
is_name c = is_word c || c == b'*' || c == b'-'

abbrev keywords : List String
keywords = "and" ∷ "or" ∷ "not" ∷ "of" ∷ "all" ∷ []

-- the token that is being read; a word starts at a boundary of words or not
pub data Reading : Type 0 where
  idle : Reading
  digits : String → Reading
  word : Bool → String → Reading

abbrev with_char : String → Char → String
with_char s c = concat s (String.◌∷◌ c "")

-- A character outside a token, after a character of a word or not: the tokens that it ends, what
-- is being read then, and whether the character is of a word.
start : Bool → Char → List String × Reading × Bool
start after_word c =
    if code c == b'(' || code c == b')'
    then (with_char "" c ∷ [], idle, false)
    else if is_digit (code c)
    then ([], digits (with_char "" c), true)
    else if is_letter (code c)
    then ([], word (not after_word) (with_char "" c), true)
    else ([], idle, is_word (code c))

module _ (py : Python) where
  -- `\b(?:and|or|not|of|all)\b` ends where a word does, and the name does not
  is_keyword : Bool → String → Char → Bool
  is_keyword at_boundary s c = at_boundary && not (is_word (code c)) && elem (py.lower s) keywords

  -- one character further
  advance : Reading → Bool → Char → List String × Reading × Bool
  unfolding start is_keyword
  advance idle after_word c = start after_word c
  advance (digits s) after_word c =
      if is_digit (code c)
      then ([], digits (with_char s c), true)
      else (let next = start true c in (s ∷ next.0, next.1, next.2))
  advance (word at_boundary s) after_word c =
      if is_name (code c) && not (is_keyword at_boundary s c)
      then ([], word at_boundary (with_char s c), is_word (code c))
      else (let next = start after_word c in (s ∷ next.0, next.1, next.2))

  scan : Reading → Bool → String → List String
  unfolding advance
  scan idle after_word String.[] = []
  scan (digits s) after_word String.[] = s ∷ []
  scan (word at_boundary s) after_word String.[] = s ∷ []
  scan reading after_word (String.◌∷◌ c text) =
      let next = advance reading after_word c in next.0 ++ scan next.1 next.2 text

  -- `_tokens`, for a condition of ASCII characters
  unfoldable pub tokens : String → List String
  unfolding scan
  tokens condition = scan idle false condition

unfoldable pub join : List String → String
unfolding concat
join [] = ""
join (t ∷ ts) = concat t (join ts)

-- `re.sub(r"\s+", "", condition)`
unfoldable pub without_spaces : String → String
unfolding is_space
without_spaces String.[] = ""
without_spaces (String.◌∷◌ c text) =
    let rest = without_spaces text in if is_space (code c) then rest else String.◌∷◌ c rest

-- `str.isdigit`, for ASCII characters
all_digits : String → Bool
all_digits String.[] = true
all_digits (String.◌∷◌ c text) = is_digit (code c) && all_digits text

unfoldable pub is_digits : String → Bool
unfolding all_digits
is_digits s = nonempty s && all_digits s

digits_value : ℕ → String → ℕ
digits_value n String.[] = n
digits_value n (String.◌∷◌ c text) = digits_value (n * 10 + (code c - b'0')) text

-- `int(s)`, which raises for a text that is not a number; the amounts have no sign and no space
unfoldable pub int : String → Option ℕ
unfolding is_digits digits_value
int s = if is_digits s then some (digits_value 0 s) else none

abbrev pub ascii : Python
ascii = record { lower = λ text. text }

tokens_test :
    tokens ascii "not(a or 1of b*)" ≡ "not" ∷ "(" ∷ "a" ∷ "or" ∷ "1" ∷ "of" ∷ "b*" ∷ ")" ∷ []
unfolding tokens concat
tokens_test = refl

-- a keyword in front of a hyphen is a token of its own
keyword_test : tokens ascii "not-admin" ≡ "not" ∷ "admin" ∷ []
unfolding tokens concat
keyword_test = refl
