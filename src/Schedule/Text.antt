-- ===== src/Schedule/Text.antt =====
-- What the cron parser uses of Python's texts and of `int`, on the code points of a text.
use Prim.Native.Char.{code}
use tiktok_b2b_bot_mirror.Prelude.{
  ℕ, zero, suc, ◌+◌, ◌*◌, ◌-◌, String, leb, nat_eq, ◌==◌, Bool, true, false, ◌&&◌, ◌||◌, Option,
  none, some, List, [], ◌∷◌, if◌then◌else◌,
}

abbrev pub Text : Type 0
Text = List ℕ

abbrev pub codes : String → Text
codes String.[] = []
codes (String.◌∷◌ c s) = code c ∷ codes s

abbrev pub is_blank : Text → Bool
is_blank [] = true
is_blank (_ ∷ _) = false

abbrev pub has_code : ℕ → Text → Bool
has_code sep [] = false
has_code sep (c ∷ s) = c == sep || has_code sep s

abbrev pub add_head : ℕ → List Text → List Text
add_head c [] = (c ∷ []) ∷ []
add_head c (w ∷ ws) = (c ∷ w) ∷ ws

-- `text.split(sep)`
unfoldable pub split_on : ℕ → Text → List Text
split_on sep [] = [] ∷ []
split_on sep (c ∷ s) = let rest = split_on sep s in if c == sep then [] ∷ rest else add_head c rest

-- `text.partition(sep)`: what stands before, and what stands behind it if it is there.
unfoldable pub partition : ℕ → Text → Text × Option Text
partition sep [] = ([], none)
partition sep (c ∷ s) =
    let (before, behind) = partition sep s in
    if c == sep then ([], some s) else (c ∷ before, behind)

-- The ASCII characters that `str.split` takes for white space.
unfoldable pub is_space : ℕ → Bool
is_space c = c == 32 || leb 9 c && leb c 13 || leb 28 c && leb c 31

abbrev pub add_word : Text → List Text → List Text
add_word [] ws = ws
add_word (c ∷ w) ws = (c ∷ w) ∷ ws

-- `text.split()`: the word at the front, and the words behind it.
unfoldable pub words_from : Text → Text × List Text
unfolding is_space
words_from [] = ([], [])
words_from (c ∷ s) =
    let (word, rest) = words_from s in
    if is_space c then ([], add_word word rest) else (c ∷ word, rest)

unfoldable pub split_words : Text → List Text
unfolding words_from
split_words s = let (word, rest) = words_from s in add_word word rest

-- An integer of Python: `negsuc n` is -(n + 1).
pub data ℤ : Type 0 where
  pos : ℕ → ℤ
  negsuc : ℕ → ℤ

abbrev pub is_digit : ℕ → Bool
is_digit c = leb b'0' c && leb c b'9'

-- The digits of `int`, with single underscores between them; `after_digit` says whether the last
-- character was a digit.
unfoldable pub digits_from : ℕ → Bool → Text → Option ℕ
digits_from acc after_digit [] = if after_digit then some acc else none
digits_from acc after_digit (c ∷ s) =
    let next = digits_from (acc * 10 + (c - b'0')) true s in
    let skipped = digits_from acc false s in
    if is_digit c then next else if c == b'_' && after_digit then skipped else none

abbrev pub negate : ℕ → ℤ
negate zero = pos 0
negate (suc n) = negsuc n

unfoldable pub signed : ℕ → Text → Option ℤ
unfolding digits_from
signed c s =
    if c == b'-'
    then elim (digits_from 0 false s) [ none ↦ none | some n ↦ some (negate n) ]
    else if c == b'+'
    then elim (digits_from 0 false s) [ none ↦ none | some n ↦ some (pos n) ]
    else elim (digits_from 0 false (c ∷ s)) [ none ↦ none | some n ↦ some (pos n) ]

-- `int(text)` on a text without white space; none where it raises.
unfoldable pub int_of : Text → Option ℤ
unfolding signed
int_of [] = none
int_of (c ∷ s) = signed c s
