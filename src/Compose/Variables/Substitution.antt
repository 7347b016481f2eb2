-- ===== src/Compose/Variables/Substitution.antt =====
-- What `${...}` is replaced by.
use dip_rust.Text.Split.{split_once-append, split_once-none}
use dip_rust.Compose.Variables.{
  at_dash, split_default, non_empty, resolve_unset, resolve_empty, resolve_env_expr, walk, text,
  expression, interpolate_string,
}
use dip_rust.Env.{Env, lookup}
use dip_rust.Base.{
  subst, ℕ, ◌≡◌, refl, ap, ◌∙◌, inl, inr, false, ◌&&◌, ◌||◌, Option, none, some, [], ◌∷◌, ◌++◌,
  append_assoc, append-nil, arith, ◌==◌, if◌then◌else◌, Bool-cases, unwrap_or,
}
use dip_rust.Text.{Text, codes, is_empty, starts_with, contains_char, contains, before}

not_open :
    (c d : ℕ) (s : Text)
    → contains (codes "${") (c ∷ d ∷ s) ≡ false
    → (c == b'$' && d == b'{' ≡ false) × (contains (codes "${") (d ∷ s) ≡ false)
unfolding contains starts_with
not_open c d s h = (ground arith, ground arith)

walk_plain : (env : Env) (s : Text) → contains (codes "${") s ≡ false → walk env text s ≡ s
unfolding walk
walk_plain env [] h = refl
walk_plain env (c ∷ []) h = refl
walk_plain env (c ∷ d ∷ s) h = let n = not_open c d s h in rw (n.0, walk_plain env (d ∷ s) n.1) refl

walk_open :
    (env : Env) (before rest : Text)
    → contains (codes "${") before ≡ false
    → walk env text (before ++ b'$' ∷ b'{' ∷ rest) ≡ before ++ walk env (expression []) rest
unfolding walk
walk_open env [] rest h = refl
walk_open env (c ∷ []) rest h = elim (Bool-cases (c == b'$')) [
  | inl e ↦ rw e refl
  | inr e ↦ rw e refl
]
walk_open env (c ∷ d ∷ s) rest h =
    let n = not_open c d s h in rw (n.0, walk_open env (d ∷ s) rest n.1) refl

walk_expression :
    (env : Env) (read expr rest : Text)
    → contains_char b'}' expr ≡ false
    → walk env (expression read) (expr ++ b'}' ∷ rest)
      ≡ resolve_env_expr (read ++ expr) env ++ walk env text rest
unfolding walk contains_char
walk_expression env read [] rest h = rw (append-nil read) refl
walk_expression env read (c ∷ expr) rest h = rw (other c h) (
    walk_expression env (read ++ c ∷ []) expr rest (later c h)
    ∙ ap (λ e. resolve_env_expr e env ++ walk env text rest) (append_assoc read (c ∷ []) expr))
  where
    other : (c : ℕ) → (b'}' == c || contains_char b'}' expr) ≡ false → c == b'}' ≡ false
    other c h = ground arith

    later :
        (c : ℕ) → (b'}' == c || contains_char b'}' expr) ≡ false → contains_char b'}' expr ≡ false
    later c h = ground arith

at_dash_other : (c : ℕ) (s : Text) → c == b':' ≡ false → at_dash c s ≡ none
at_dash_other c [] h = refl
at_dash_other c (d ∷ s) h = rw h refl

no_char :
    (c d : ℕ) (s : Text)
    → contains_char d (c ∷ s) ≡ false
    → (c == d ≡ false) × (contains_char d s ≡ false)
unfolding contains_char
no_char c d s h = (ground arith, ground arith)

split_default-key :
    (key default : Text)
    → contains_char b':' key ≡ false
    → split_default (key ++ b':' ∷ b'-' ∷ default) ≡ some (key, default)
unfolding split_default
split_default-key [] default h = refl
split_default-key (c ∷ key) default h =
    let n = no_char c b':' key h in
    rw (at_dash_other c (key ++ b':' ∷ b'-' ∷ default) n.0, split_default-key key default n.1) refl

split_default-none :
    (key rest : Text)
    → contains_char b':' key ≡ false
    → split_default rest ≡ none
    → split_default (key ++ rest) ≡ none
unfolding split_default
split_default-none [] rest h k = k
split_default-none (c ∷ key) rest h k =
    let n = no_char c b':' key h in
    rw (at_dash_other c (key ++ rest) n.0, split_default-none key rest n.1 k) refl

-- A text without `${` stays as it is. What stands between a `${` and the next `}` is replaced, the
-- text before it stays, and the rest is interpolated in the same way; what replaces an expression
-- is not looked through again.
pub interpolate_string_lem :
    (env : Env) (before expr rest : Text)
    → contains (codes "${") before ≡ false
    → contains_char b'}' expr ≡ false
    → (interpolate_string before env ≡ before)
      × (interpolate_string (before ++ b'$' ∷ b'{' ∷ (expr ++ b'}' ∷ rest)) env
          ≡ before ++ (resolve_env_expr expr env ++ interpolate_string rest env))
unfolding interpolate_string
interpolate_string_lem env before expr rest h k = (
  walk_plain env before h,
  walk_open env before (expr ++ b'}' ∷ rest) h
      ∙ ap (λ t. before ++ t) (walk_expression env [] expr rest k),
)

-- For a name without `:` and `-`: `NAME:-default` is the variable unless it is unset or empty,
-- `NAME-default` the variable unless it is unset, if the default has no `:-`, and `NAME` the
-- variable, or nothing if it is unset.
pub resolve_env_expr_forms :
    (env : Env) (key default : Text)
    → contains_char b':' key ≡ false
    → contains_char b'-' key ≡ false
    → split_default default ≡ none
    → (resolve_env_expr (key ++ b':' ∷ b'-' ∷ default) env
        ≡ (let value = unwrap_or (lookup key env) [] in if is_empty value then default else value))
      × (resolve_env_expr (key ++ b'-' ∷ default) env ≡ unwrap_or (lookup key env) default)
      × (resolve_env_expr key env ≡ unwrap_or (lookup key env) [])
unfolding resolve_env_expr resolve_empty resolve_unset split_default
resolve_env_expr_forms env key default colon dash d = (
  rw (split_default-key key default colon) (non_empty_lem (lookup key env)),
  rw
      (
        split_default-none key (b'-' ∷ default) colon (dashed default d),
        split_once-append b'-' key default dash,
      )
      refl,
  rw (unsplit, split_once-none b'-' key dash) refl,
)
  where
    non_empty_lem :
        (o : Option Text)
        → non_empty o default ≡ (if is_empty (unwrap_or o []) then default else unwrap_or o [])
    non_empty_lem none = refl
    non_empty_lem (some []) = refl
    non_empty_lem (some (c ∷ value)) = refl

    dashed : (default : Text) → split_default default ≡ none → split_default (b'-' ∷ default) ≡ none
    dashed default d = rw (at_dash_other b'-' default refl, d) refl

    unsplit : split_default key ≡ none
    unsplit =
        subst (λ k. split_default k ≡ none) (append-nil key) (split_default-none key [] colon refl)
