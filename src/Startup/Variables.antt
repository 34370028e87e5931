-- ===== src/Startup/Variables.antt =====
-- apps/btc_poly_runner.cpp and apps/live_trader.cpp: the environment after a .env file is loaded.
use prediction_market_arbitr.Base.{
  true, if◌then◌else◌, ◌≡◌, refl, ap, ◌∙◌, sym, List, [], ◌∷◌, ◌++◌, Option, none, some, Bool-cases,
  inl, inr, codes_eq, or_else, or_else_assoc, arith,
}
use prediction_market_arbitr.Buckets.Slug.{Text}
use prediction_market_arbitr.Startup.Dotenv.{
  Variables, getenv, unless_set, set_new, set_if, load_lines, load_dotenv, read_line,
}
use prediction_market_arbitr.Trader.Dotenv.{load_dotenv_if_present}
use prediction_market_arbitr.Trader.Dotenv as Trader

abbrev pub value_for : Text → Option (Text × Text) → Option Text
value_for key none = none
value_for key (some (k, v)) = if codes_eq k key then some v else none

-- The value that the first line assigns that assigns this key.
abbrev pub first_value : (Text → Option (Text × Text)) → Text → List Text → Option Text
first_value read key [] = none
first_value read key (line ∷ lines) =
    or_else (value_for key (read line)) (first_value read key lines)

pub codes_eq_sound : (xs ys : Text) → codes_eq xs ys ≡ true → xs ≡ ys
unfolding codes_eq
codes_eq_sound [] [] h = refl
codes_eq_sound [] (y ∷ ys) h = ground arith
codes_eq_sound (x ∷ xs) [] h = ground arith
codes_eq_sound (x ∷ xs) (y ∷ ys) h = ground (arith, codes_eq_sound xs ys)

getenv-append :
    (key : Text) (xs ys : Variables)
    → getenv key (xs ++ ys) ≡ or_else (getenv key xs) (getenv key ys)
unfolding getenv
getenv-append key [] ys = refl
getenv-append key ((k, v) ∷ xs) ys = ground (arith, getenv-append key xs ys)

or_else-none : {A : Type 0} (x : Option A) → or_else x none ≡ x
or_else-none none = refl
or_else-none (some a) = refl

or_else_found : {A : Type 0} (x y : Option A) (a : A) → x ≡ some a → or_else x y ≡ x
or_else_found x y a e = rw (e, or_else) refl

-- A variable that is set stays; one that is not gets its value.
getenv-unless_set :
    (key k v : Text) (vars : Variables) (o : Option Text)
    → getenv k vars ≡ o
    → getenv key (unless_set o (k, v) vars)
      ≡ or_else (getenv key vars) (value_for key (some (k, v)))
unfolding getenv
getenv-unless_set key k v vars none e = getenv-append key vars ((k, v) ∷ [])
getenv-unless_set key k v vars (some w) e = elim (Bool-cases (codes_eq k key)) [
  | inl same ↦ sym (
      or_else_found (getenv key vars) (value_for key (some (k, v))) w
        (ap (λ (x : Text). getenv x vars) (sym (codes_eq_sound k key same)) ∙ e))
  | inr other ↦ rw other (sym (or_else-none (getenv key vars)))
]

getenv-set_if :
    (key : Text) (o : Option (Text × Text)) (vars : Variables)
    → getenv key (set_if o vars) ≡ or_else (getenv key vars) (value_for key o)
unfolding set_new
getenv-set_if key none vars = sym (or_else-none (getenv key vars))
getenv-set_if key (some (k, v)) vars = getenv-unless_set key k v vars (getenv k vars) refl

pub load_lines-getenv :
    (read : Text → Option (Text × Text)) (key : Text) (lines : List Text) (vars : Variables)
    → getenv key (load_lines read lines vars)
      ≡ or_else (getenv key vars) (first_value read key lines)
unfolding load_lines
load_lines-getenv read key [] vars = sym (or_else-none (getenv key vars))
load_lines-getenv read key (line ∷ lines) vars =
    load_lines-getenv read key lines (set_if (read line) vars)
    ∙ ap (λ (x : Option Text). or_else x (first_value read key lines))
        (getenv-set_if key (read line) vars)
    ∙ or_else_assoc (getenv key vars) (value_for key (read line)) (first_value read key lines)

-- After either program has loaded its .env file, a variable has the value that it had before, and one
-- that was not set has the value of the first line that assigns it, if there is one.
pub dotenv_variables :
    (key : Text) (lines : List Text) (vars : Variables)
    → (getenv key (load_dotenv lines vars)
        ≡ or_else (getenv key vars) (first_value read_line key lines))
      × (getenv key (load_dotenv_if_present lines vars)
          ≡ or_else (getenv key vars) (first_value Trader.read_line key lines))
unfolding load_dotenv load_dotenv_if_present
dotenv_variables key lines vars =
    (load_lines-getenv read_line key lines vars, load_lines-getenv Trader.read_line key lines vars)
