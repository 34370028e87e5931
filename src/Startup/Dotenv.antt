-- ===== src/Startup/Dotenv.antt =====
-- apps/btc_poly_runner.cpp: `load_dotenv`. A file is the list of its lines, and texts are lists of
-- character codes; the environment is the list of its variables.
use prediction_market_arbitr.Base.{
  ℕ, Bool, true, false, if◌then◌else◌, ◌&&◌, ◌||◌, ◌==◌, leb, List, [], ◌∷◌, ◌++◌, Option, none,
  some, codes, codes_eq, prefix_of, length,
}
use prediction_market_arbitr.Buckets.Slug.{Text, drop}

abbrev pub Variables : Type 0
Variables = List (Text × Text)

unfoldable pub getenv : Text → Variables → Option Text
getenv key [] = none
getenv key ((k, v) ∷ vars) = if codes_eq k key then some v else getenv key vars

abbrev pub is_empty_text : Text → Bool
is_empty_text [] = true
is_empty_text (c ∷ cs) = false

-- `find(c)`: what stands before the first `c`, and what after it.
unfoldable pub split_at : (c : ℕ) → Text → Option (Text × Text)
split_at c [] = none
split_at c (x ∷ xs) =
    if x == c
    then some ([], xs)
    else elim (split_at c xs) [ none ↦ none | some p ↦ some (x ∷ p.0, p.1) ]

unfoldable pub trim_front : (ℕ → Bool) → Text → Text
trim_front blank [] = []
trim_front blank (c ∷ cs) = let rest = trim_front blank cs in if blank c then rest else c ∷ cs

-- `while (!s.empty() && blank(s.back())) s.pop_back();`
unfoldable pub trim_back : (ℕ → Bool) → Text → Text
trim_back blank [] = []
trim_back blank (c ∷ cs) =
    let rest = trim_back blank cs in if blank c && is_empty_text rest then [] else c ∷ rest

abbrev pub ends_with : ℕ → Text → Bool
ends_with c [] = false
ends_with c (x ∷ []) = x == c
ends_with c (x ∷ y ∷ xs) = ends_with c (y ∷ xs)

abbrev pub but_last : Text → Text
but_last [] = []
but_last (x ∷ []) = []
but_last (x ∷ y ∷ xs) = x ∷ but_last (y ∷ xs)

abbrev pub starts_with : ℕ → Text → Bool
starts_with c [] = false
starts_with c (x ∷ xs) = x == c

-- The surrounding double quotes are dropped.
unfoldable pub unquoted : Text → Text
unquoted v =
    if leb 2 (length v) && starts_with 34 v && ends_with 34 v then but_last (drop 1 v) else v

abbrev pub is_space : ℕ → Bool
is_space c = c == 32 || c == 9

abbrev pub is_line_end : ℕ → Bool
is_line_end c = c == 13 || c == 10

abbrev pub past_export : Text → Text
past_export line = if prefix_of (codes "export ") line then drop 7 line else line

-- The key and the value, if the key is not empty.
abbrev pub assigned : Option (Text × Text) → Option (Text × Text)
assigned none = none
assigned (some (k, v)) =
    if is_empty_text k
    then none
    else if is_empty_text (trim_back is_space k)
    then none
    else some (trim_back is_space k, unquoted (trim_back is_line_end v))

-- What a line assigns.
unfoldable pub read_line : Text → Option (Text × Text)
read_line raw =
    let line = trim_front (λ c. is_space c || is_line_end c) raw in
    if is_empty_text line || starts_with 35 line
    then none
    else assigned (split_at 61 (past_export line))

abbrev pub unless_set : Option Text → Text × Text → Variables → Variables
unless_set none p vars = vars ++ (p ∷ [])
unless_set (some v) p vars = vars

-- `setenv(key, value, 0)`
unfoldable pub set_new : Text × Text → Variables → Variables
set_new p vars = unless_set (getenv p.0 vars) p vars

abbrev pub set_if : Option (Text × Text) → Variables → Variables
set_if none vars = vars
set_if (some p) vars = set_new p vars

-- The loop over the lines, for either reader of a line.
unfoldable pub load_lines : (Text → Option (Text × Text)) → List Text → Variables → Variables
load_lines read [] vars = vars
load_lines read (line ∷ lines) vars = load_lines read lines (set_if (read line) vars)

unfoldable pub load_dotenv : List Text → Variables → Variables
load_dotenv lines vars = load_lines read_line lines vars
