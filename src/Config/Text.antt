-- ===== src/Config/Text.antt =====
-- The functions of Go's `strings`, `strconv` and `regexp` that the validators of the configuration
-- call, on texts of characters.
use Prim.Native.Char.{Char, code}
use Prim.Native.String
use elastic_fruit_runner.Base.{
  ℕ, zero, suc, ◌+◌, ◌-◌, ◌/◌, ◌%◌, ◌≤◌, Bool, true, false, String, append_text, List, [], ◌∷◌,
  Option, none, some, ltb, leb, eqb, ◌&&◌, ◌||◌, not, ◌==◌, length, ℤ, pos, negsuc, ◌≡◌, refl, sym,
  ◌∙◌, min, Bool-cases, inl, inr, arith, if◌then◌else◌,
}

-- Whether a number stands in a list.
unfoldable pub one_of : List ℕ → ℕ → Bool
one_of [] n = false
one_of (m ∷ ms) n = eqb m n || one_of ms n

-- strings.ContainsAny, with the characters by their numbers
unfoldable pub contains_any : List ℕ → String → Bool
contains_any codes String.[] = false
contains_any codes (String.◌∷◌ c s) = one_of codes (code c) || contains_any codes s

unfoldable pub begins_with : ℕ → String → Bool
begins_with n String.[] = false
begins_with n (String.◌∷◌ c s) = eqb (code c) n

-- strings.Contains(s, "--")
unfoldable pub has_double_dash : String → Bool
has_double_dash String.[] = false
has_double_dash (String.◌∷◌ c s) = eqb (code c) 45 && begins_with 45 s || has_double_dash s

-- The first piece of a split text gets a character in front.
abbrev pub prepend : Char → List String → List String
prepend c [] = String.◌∷◌ c "" ∷ []
prepend c (piece ∷ pieces) = String.◌∷◌ c piece ∷ pieces

-- strings.Split at one character
unfoldable pub split : ℕ → String → List String
split separator String.[] = "" ∷ []
split separator (String.◌∷◌ c s) =
    let pieces = split separator s in
    if eqb (code c) separator then "" ∷ pieces else prepend c pieces

-- strings.SplitN at one character: the last of the n pieces is the rest of the text.
unfoldable pub split_n : ℕ → ℕ → String → List String
split_n separator zero s = []
split_n separator (suc zero) s = s ∷ []
split_n separator (suc (suc n)) String.[] = "" ∷ []
split_n separator (suc (suc n)) (String.◌∷◌ c s) =
    let after = split_n separator (suc n) s in
    let pieces = split_n separator (suc (suc n)) s in
    if eqb (code c) separator then "" ∷ after else prepend c pieces

-- unicode.IsSpace
abbrev pub is_space : ℕ → Bool
is_space n =
    leb 9 n && leb n 13
    || one_of (32 ∷ 133 ∷ 160 ∷ 5760 ∷ 8232 ∷ 8233 ∷ 8239 ∷ 8287 ∷ 12288 ∷ []) n
    || leb 8192 n && leb n 8202

unfoldable pub trim_left : String → String
trim_left String.[] = ""
trim_left (String.◌∷◌ c s) =
    let rest = trim_left s in if is_space (code c) then rest else String.◌∷◌ c s

unfoldable pub trim_right : String → String
trim_right String.[] = ""
trim_right (String.◌∷◌ c s) =
    let rest = trim_right s in if rest == "" && is_space (code c) then "" else String.◌∷◌ c rest

-- strings.TrimSpace
abbrev pub trim_space : String → String
trim_space s = trim_right (trim_left s)

-- regexp: `^[A-Za-z0-9]$` and its like
abbrev pub is_alphanumeric : ℕ → Bool
is_alphanumeric n = leb 65 n && leb n 90 || leb 97 n && leb n 122 || leb 48 n && leb n 57

unfoldable pub all_chars : (ℕ → Bool) → String → Bool
all_chars allowed String.[] = true
all_chars allowed (String.◌∷◌ c s) = allowed (code c) && all_chars allowed s

unfoldable pub ends_with : (ℕ → Bool) → String → Bool
ends_with allowed String.[] = false
ends_with allowed (String.◌∷◌ c s) = if s == "" then allowed (code c) else ends_with allowed s

unfoldable pub starts_in : (ℕ → Bool) → String → Bool
starts_in allowed String.[] = false
starts_in allowed (String.◌∷◌ c s) = allowed (code c)

-- strings.HasPrefix
unfoldable pub has_prefix : String → String → Bool
has_prefix String.[] s = true
has_prefix (String.◌∷◌ c pre) String.[] = false
has_prefix (String.◌∷◌ c pre) (String.◌∷◌ d s) = eqb (code c) (code d) && has_prefix pre s

-- What follows a prefix, and what surrounds the first occurrence of a text (strings.Index).
unfoldable pub after_prefix : String → String → String
after_prefix String.[] s = s
after_prefix (String.◌∷◌ c pre) String.[] = ""
after_prefix (String.◌∷◌ c pre) (String.◌∷◌ d s) = after_prefix pre s

unfoldable pub cut : String → String → Option (String × String)
cut mark String.[] = if has_prefix mark "" then some ("", "") else none
cut mark (String.◌∷◌ c s) =
    let later = cut mark s in
    if has_prefix mark (String.◌∷◌ c s)
    then some ("", after_prefix mark (String.◌∷◌ c s))
    else elim later [ none ↦ none | some parts ↦ some (String.◌∷◌ c parts.0, parts.1) ]

-- strings.Join with a line feed
unfoldable pub join_lines : List String → String
join_lines [] = ""
join_lines (line ∷ lines) = elim lines [
  | [] ↦ line
  | next ∷ more ↦ append_text line (append_text "\n" (join_lines lines))
]

-- `^[A-Za-z0-9](?:[A-Za-z0-9-]{0,37}[A-Za-z0-9])?$`
unfoldable pub github_owner_pattern : String → Bool
github_owner_pattern s =
    starts_in is_alphanumeric s
    && ends_with is_alphanumeric s
    && all_chars (λ n. is_alphanumeric n || eqb n 45) s
    && leb (String.count s) 39

-- `^[A-Za-z0-9_.-]{1,100}$`
unfoldable pub github_repository_pattern : String → Bool
github_repository_pattern s =
    all_chars (λ n. is_alphanumeric n || one_of (95 ∷ 46 ∷ 45 ∷ []) n) s
    && leb 1 (String.count s)
    && leb (String.count s) 100

-- unicode.ToLower, as far as its answers are ASCII: the capitals A to Z, the dotted I and the
-- Kelvin sign. The code compares the result with ASCII words alone.
abbrev pub lower : Char → Char
lower c =
    let n = code c in
    if leb 65 n && leb n 90
    then String.char_at "abcdefghijklmnopqrstuvwxyz" (n - 65)
    else if eqb n 304
    then String.char_at "i" 0
    else if eqb n 8490
    then String.char_at "k" 0
    else c

-- strings.ToLower
unfoldable pub to_lower : String → String
to_lower String.[] = ""
to_lower (String.◌∷◌ c s) = String.◌∷◌ (lower c) (to_lower s)

abbrev pub digit : ℕ → String
digit n = String.slice "0123456789" n (n + 1)

-- The last digits of a number, at most as many as the fuel.
unfoldable pub digits : ℕ → ℕ → String
digits zero n = ""
digits (suc fuel) n =
    let higher = digits fuel (n / 10) in
    if ltb n 10 then digit n else append_text higher (digit (n % 10))

-- strconv.Itoa: a number has fewer digits than n + 1.
abbrev pub itoa : ℕ → String
itoa n = digits (n + 1) n

-- `%d`
unfoldable pub decimal : ℤ → String
decimal (pos n) = itoa n
decimal (negsuc n) = append_text "-" (itoa (n + 1))

-- Split never answers no piece at all.
pub length-split : (separator : ℕ) (s : String) → 1 ≤ length (split separator s)
unfolding split
length-split separator String.[] = omega arith
length-split separator (String.◌∷◌ c s) = ground (arith, length-split separator s)

length-prepend :
    (c : Char) (pieces : List String)
    → 1 ≤ length pieces
    → length (prepend c pieces) ≡ length pieces
length-prepend c [] h = omega (arith, h)
length-prepend c (p ∷ ps) h = refl

-- As long as there are no more pieces than SplitN may answer, it answers those of Split.
pub split_n-split :
    (separator n : ℕ) (s : String)
    → length (split separator s) ≤ suc n
    → split_n separator (suc n) s ≡ split separator s
unfolding split split_n
split_n-split separator zero String.[] h = refl
split_n-split separator zero (String.◌∷◌ c s) h = ground (
  arith,
  split_n-split separator zero s,
  length-split separator s,
  length-prepend c (split separator s),
)
split_n-split separator (suc n) String.[] h = refl
split_n-split separator (suc n) (String.◌∷◌ c s) h = ground (
  arith,
  split_n-split separator n s,
  split_n-split separator (suc n) s,
  length-split separator s,
  length-prepend c (split separator s),
)

length-split_n :
    (separator n : ℕ) (s : String)
    → length (split_n separator (suc n) s) ≡ min (suc n) (length (split separator s))
unfolding split split_n
length-split_n separator zero String.[] = omega arith
length-split_n separator zero (String.◌∷◌ c s) =
    ground (arith, length-split separator s, length-prepend c (split separator s))
length-split_n separator (suc n) String.[] = omega arith
length-split_n separator (suc n) (String.◌∷◌ c s) = ground (
  arith,
  length-split_n separator n s,
  length-split_n separator (suc n) s,
  length-split separator s,
  length-prepend c (split separator s),
  length-prepend c (split_n separator (suc (suc n)) s),
)

-- Two pieces that are not empty.
unfoldable pub two_words : List String → Bool
two_words (owner ∷ name ∷ []) = not (owner == "") && not (name == "")
two_words parts = false

two_words_long : (parts : List String) → 3 ≤ length parts → two_words parts ≡ false
unfolding two_words
two_words_long [] h = refl
two_words_long (x ∷ []) h = refl
two_words_long (x ∷ y ∷ []) h = ground (arith, h)
two_words_long (x ∷ y ∷ z ∷ parts) h = refl

-- A third piece, however much it holds, tells that there are not two.
pub two_words-split_n :
    (separator : ℕ) (s : String) → two_words (split_n separator 3 s) ≡ two_words (split separator s)
two_words-split_n separator s = elim (Bool-cases (leb (length (split separator s)) 3)) [
  | inl short ↦ rw (split_n-split separator 2 s (ground (arith, short)))
  | inr long ↦
      let counted = length-split_n separator 2 s in
      two_words_long (split_n separator 3 s) (ground arith)
      ∙ sym (two_words_long (split separator s) (ground arith))
]

pub two_words-nothing : (separator : ℕ) → two_words (split_n separator 3 "") ≡ false
unfolding two_words split_n
two_words-nothing separator = refl
