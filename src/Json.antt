-- ===== src/Json.antt =====
-- nlohmann::json, as far as the program reads and writes it. The library is not part of the
-- repository, so a type of documents with these accessors is a parameter of the model.
use prediction_market_arbitr.Base.{
  ℤ, String, Bool, List, Option, none, some, if◌then◌else◌, not, ◌&&◌,
}

pub record Json (W J : Type 0) : Type 0 where
  pub contains : J → String → Bool
  -- `j.at(key)` and `j[key]` on a key that is there
  pub at : J → String → J
  pub is_object : J → Bool
  pub is_array : J → Bool
  pub is_string : J → Bool
  pub is_number : J → Bool
  pub is_null : J → Bool
  pub is_boolean : J → Bool
  -- `is_number_integer`, which holds of unsigned numbers too
  pub is_integer : J → Bool
  pub get_double : J → W
  pub get_string : J → String
  pub get_boolean : J → Bool
  -- of a floating-point number, cut off
  pub get_int : J → ℤ
  -- what a `for` over the value visits: the elements of an array
  pub elements : J → List J
  -- an object with these fields, and the values that the program writes
  pub object : List (String × J) → J
  pub of_string : String → J
  pub of_double : W → J
  pub of_int : ℤ → J
  pub of_list : List J → J
  -- `none` is the exception of `parse`
  pub parse : String → Option J
  pub dump : J → String

module _ {W J : Type 0} (json : Json W J) where
  -- `j.value(key, default)` at the three types that the program asks for. `none` is the exception that
  -- it throws if `j` is no object or the value has another type.
  unfoldable pub value_string : J → String → String → Option String
  value_string j key default =
      if not (json.is_object j)
      then none
      else if not (json.contains j key)
      then some default
      else if json.is_string (json.at j key)
      then some (json.get_string (json.at j key))
      else none

  unfoldable pub value_boolean : J → String → Bool → Option Bool
  value_boolean j key default =
      if not (json.is_object j)
      then none
      else if not (json.contains j key)
      then some default
      else if json.is_boolean (json.at j key)
      then some (json.get_boolean (json.at j key))
      else none

  -- `j.contains(key) && j[key].is_array()`, with the elements
  unfoldable pub array_field : J → String → Option (List J)
  array_field j key =
      if json.contains j key && json.is_array (json.at j key)
      then some (json.elements (json.at j key))
      else none
