-- ===== src/Proxy/Headers.antt =====
-- What the proxy relies on of the `http` crate's `HeaderMap` and `HeaderValue`, as an interface.
-- Header names are written in lower case, as the crate stores them.
use dip_rust.Base.{
  ℕ, ◌≡◌, Bool, true, ◌&&◌, ◌||◌, Option, none, some, ltb, leb, ◌==◌, if◌then◌else◌, All,
}
use dip_rust.Text.{Text, text_eq}

-- A character that `HeaderValue::from_str` accepts and `to_str` shows.
abbrev pub is_visible : ℕ → Bool
is_visible c = (leb 32 c && ltb c 127) || c == 9

pub record Headers : Type 1 where
  pub Map : Type 0
  pub Value : Type 0
  -- the first value of a name
  pub get : Text → Map → Option Value
  -- one value, in place of all that the name had
  pub insert : Text → Value → Map → Map
  pub remove : Text → Map → Map
  pub from_str : Text → Option Value
  pub to_str : Value → Option Text
  pub from_static : Text → Value
  pub get-insert :
      (k j : Text) (v : Value) (m : Map)
      → get j (insert k v m) ≡ (if text_eq k j then some v else get j m)
  pub get-remove :
      (k j : Text) (m : Map) → get j (remove k m) ≡ (if text_eq k j then none else get j m)
  pub to_str-from_str : (s : Text) (v : Value) → from_str s ≡ some v → to_str v ≡ some s
  pub to_str-from_static :
      (s : Text) → All (λ c. is_visible c ≡ true) s → to_str (from_static s) ≡ some s
