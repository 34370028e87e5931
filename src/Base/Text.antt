-- ===== src/Base/Text.antt =====
-- Whole texts: equality as a test, and lower case for ASCII.
use Prim.Native.Char.{Char, char, code, nul, IsScalar}
use Prim.Native.String.{String, ◌++◌ as append}
use Prim.Native.Nat.{ℕ, zero, suc, ◌+◌, ◌<◌}
use mathlib.Core.Path.{◌≡◌}
use mathlib.Core.Bool.{Bool, true, false, ◌&&◌, ◌||◌}
use mathlib.Core.List.{List, [], ◌∷◌, map}
use mathlib.Core.Option.{Option, none, some}
use mathlib.Core.Logic.{dite}
use native.Mathlib.Decide.{dec_lt}
use native.Mathlib.Omega.{arith}
use text.Mathlib.Text
use text.Mathlib.TextEquality.{eq_iff}
use text.Mathlib.TextPositions.{eq_refl}
use prediction_market_arbitr.Base.Tests.{leb, if◌then◌else◌, ◌==◌}

-- `==` on strings
unfoldable pub same : String → String → Bool
same s t = Text.◌==◌ s t

pub same_refl : (s : String) → same s s ≡ true
unfolding same
same_refl s = eq_refl s

pub eq_of_same : (s t : String) → same s t ≡ true → s ≡ t
unfolding same
eq_of_same s t h = (eq_iff s t).0 h

-- `std::string::empty`
abbrev pub is_empty : String → Bool
is_empty String.[] = true
is_empty (String.◌∷◌ c s) = false

-- The character codes of a text.
abbrev pub codes : String → List ℕ
codes String.[] = []
codes (String.◌∷◌ c s) = code c ∷ codes s

unfoldable pub codes_eq : List ℕ → List ℕ → Bool
codes_eq [] [] = true
codes_eq (x ∷ xs) (y ∷ ys) = x == y && codes_eq xs ys
codes_eq _ _ = false

-- `std::tolower` on a character code
unfoldable pub to_lower : ℕ → ℕ
to_lower c = if leb 65 c && leb c 90 then c + 32 else c

-- `lower`, on the character codes
abbrev pub lower : String → List ℕ
lower s = map to_lower (codes s)

-- `+` on strings
infixr 65 ◌⊕◌
abbrev pub ◌⊕◌ : String → String → String
s ⊕ t = append s t

-- `needle` starts the text.
abbrev pub prefix_of : (needle text : List ℕ) → Bool
prefix_of [] text = true
prefix_of (c ∷ cs) [] = false
prefix_of (c ∷ cs) (x ∷ xs) = c == x && prefix_of cs xs

-- `find(needle) != npos`
unfoldable pub contains_text : (needle text : List ℕ) → Bool
contains_text needle [] = prefix_of needle []
contains_text needle (x ∷ xs) = prefix_of needle (x ∷ xs) || contains_text needle xs

pub IsScalar-of_lt : (n : ℕ) → n < 55296 → IsScalar n
IsScalar-of_lt n h = ground arith

-- The character with this code; every byte of a text is one.
abbrev pub char_of : ℕ → Char
char_of n = dite (dec_lt n 55296) (λ h. char n (IsScalar-of_lt n h)) (λ h. nul)

-- The text with these character codes.
unfoldable pub spell : List ℕ → String
unfolding dec_lt
spell [] = ""
spell (c ∷ cs) = String.◌∷◌ (char_of c) (spell cs)

-- `text.find(needle)`: what follows the place where it is first found, that place included.
unfoldable pub find_text : (needle text : String) → Option String
find_text needle String.[] = if is_empty needle then some "" else none
find_text needle (String.◌∷◌ c s) =
    let later = find_text needle s in
    if prefix_of (codes needle) (codes (String.◌∷◌ c s)) then some (String.◌∷◌ c s) else later

abbrev pub after_char : Char → Option String → Option String
after_char c none = none
after_char c (some s) = some (String.◌∷◌ c s)

-- `text.substr(0, text.find(needle))`
unfoldable pub before_text : (needle text : String) → Option String
before_text needle String.[] = if is_empty needle then some "" else none
before_text needle (String.◌∷◌ c s) =
    let later = after_char c (before_text needle s) in
    if prefix_of (codes needle) (codes (String.◌∷◌ c s)) then some "" else later

-- `text.substr(n)`, of characters of one byte
unfoldable pub drop_text : ℕ → String → String
drop_text zero s = s
drop_text (suc n) String.[] = ""
drop_text (suc n) (String.◌∷◌ c s) = drop_text n s
