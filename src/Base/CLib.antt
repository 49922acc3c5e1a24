-- ===== src/Base/CLib.antt =====
-- What the sources use of the C library's text functions.
use Prim.Native.Nat.{ℕ, zero, suc, ◌+◌, ◌-◌, ◌*◌}
use mathlib.Core.Bool.{Bool, true, false, ◌&&◌, ◌||◌}
use mathlib.Core.List.{List, [], ◌∷◌, ◌++◌}
use ecse_427_simple_shell_cr.Base.Tests.{◌==◌, leb, if◌then◌else◌}
use ecse_427_simple_shell_cr.Base.Text.{Str}
use ecse_427_simple_shell_cr.Base.Int.{ℤ, pos, negsuc}

abbrev pub space : ℕ
space = b' '

abbrev pub newline : ℕ
newline = 10

abbrev pub semicolon : ℕ
semicolon = b';'

abbrev pub dollar : ℕ
dollar = b'$'

-- `s[strcspn(s, "\r\n")] = 0`
unfoldable pub strip_newline : Str → Str
strip_newline [] = []
strip_newline (c ∷ s) = if c == 13 || c == newline then [] else c ∷ strip_newline s

pub record Line : Type 0 where
  pub text : Str
  pub rest : Str
  pub at_end : Bool

-- `fgets(buf, n + 1, f)`: at most `n` bytes, up to and with a newline; `at_end` is `feof(f)` after.
unfoldable pub fgets : ℕ → Str → Line
fgets zero s = record { text = []; rest = s; at_end = false }
fgets (suc n) [] = record { text = []; rest = []; at_end = true }
fgets (suc n) (c ∷ s) =
    let l = fgets n s in
    if c == newline
    then record { text = c ∷ []; rest = s; at_end = false }
    else record l { text = c ∷ l.text }

-- the words with a space between any two
unfoldable pub join_words : List Str → Str
join_words [] = []
join_words (w ∷ []) = w
join_words (w ∷ (x ∷ ws)) = w ++ space ∷ join_words (x ∷ ws)

-- `isdigit` and `isalnum` in the C locale
unfoldable pub isdigit : ℕ → Bool
isdigit c = leb 48 c && leb c 57

unfoldable pub isalnum : ℕ → Bool
unfolding isdigit
isalnum c = isdigit c || (leb 65 c && leb c 90) || (leb 97 c && leb c 122)

-- the value of the digits in front, behind a number that was read
unfoldable pub digits : ℕ → Str → ℕ
unfolding isdigit
digits n [] = n
digits n (c ∷ s) = elim (isdigit c) [ true ↦ digits (n * 10 + (c - 48)) s | false ↦ n ]

unfoldable pub negate : ℕ → ℤ
negate zero = pos zero
negate (suc n) = negsuc n

-- `atoi` of a text whose number is in the range of an `int`
unfoldable pub atoi : Str → ℤ
unfolding digits negate
atoi [] = pos 0
atoi (c ∷ s) =
    let behind = atoi s in
    elim (c == 32 || (leb 9 c && leb c 13)) [
      | true ↦ behind
      | false ↦
          if c == b'-'
          then negate (digits 0 s)
          else if c == b'+'
          then pos (digits 0 s)
          else pos (digits 0 (c ∷ s))
    ]

-- the text of a buffer: its bytes before the first zero
unfoldable pub c_string : List ℕ → Str
c_string [] = []
c_string (c ∷ s) = elim (c == 0) [ true ↦ [] | false ↦ c ∷ c_string s ]
