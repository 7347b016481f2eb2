-- ===== src/Compose/Paths/Dots.antt =====
-- What `..`, `.` and names do in a path that `normalize_path` of src/runtime/compose_file.rs reads.
use dip_rust.Base.{
  ◌≡◌, refl, sym, ap, ◌∙◌, Bool, true, false, ◌||◌, List, [], ◌∷◌, ◌++◌, append-nil, ◌==◌,
  if◌then◌else◌, All,
}
use dip_rust.Text.{Text, codes, text_eq, is_empty, contains_char, split, join}
use dip_rust.Text.Split.{split-append, split_some, split_separated}
use dip_rust.Compose.Paths.{
  show_path, normalize_path, Component, root_dir, parent_dir, normal, component, parts_components,
  front, components, Buf, push, push_all,
}
use dip_rust.Compose.Paths.Normal.{
  Clean, empty_path, components-names, push_all-started, normalize_path-normalize_path,
  backwards_twice,
}

parts_components-append :
    (xs ys : List Text) → parts_components (xs ++ ys) ≡ parts_components xs ++ parts_components ys
unfolding parts_components component
parts_components-append [] ys = refl
parts_components-append (x ∷ xs) ys =
    ap (component x) (parts_components-append xs ys)
    ∙ spread (is_empty x) (text_eq x (codes ".")) (text_eq x (codes ".."))
  where
    spread :
        (a b c : Bool)
        → (if a || b
            then parts_components xs ++ parts_components ys
            else if c
            then parent_dir ∷ (parts_components xs ++ parts_components ys)
            else normal x ∷ (parts_components xs ++ parts_components ys))
          ≡ (if a || b
              then parts_components xs
              else if c
              then parent_dir ∷ parts_components xs
              else normal x ∷ parts_components xs)
            ++ parts_components ys
    spread true b c = refl
    spread false true c = refl
    spread false false true = refl
    spread false false false = refl

push_all-append :
    (xs ys : List Component) (out : Buf) → push_all (xs ++ ys) out ≡ push_all ys (push_all xs out)
unfolding push_all
push_all-append [] ys out = refl
push_all-append (x ∷ xs) ys out = push_all-append xs ys (push x out)

-- What a path that goes on behind a slash starts with.
lead : Text → List Component
lead [] = root_dir ∷ []
lead (c ∷ base) = if c == b'/' then root_dir ∷ [] else front (split b'/' (c ∷ base))

front-append : (base s : Text) → front (split b'/' base ++ split b'/' s) ≡ front (split b'/' base)
unfolding front
front-append base s = let (part, parts, known) = split_some b'/' base in rw known refl

components_behind :
    (base s : Text)
    → components (base ++ b'/' ∷ s)
      ≡ lead base ++ (parts_components (split b'/' base) ++ parts_components (split b'/' s))
unfolding components lead
components_behind [] s =
    ap (λ ps. root_dir ∷ parts_components ps) (split_separated b'/' [] s)
    ∙ ap (◌∷◌ root_dir) (parts_components-append (split b'/' []) (split b'/' s))
components_behind (c ∷ base) s =
    ap (λ ps. (if c == b'/' then root_dir ∷ [] else front ps) ++ parts_components ps)
      (split_separated b'/' (c ∷ base) s)
    ∙ rw (front-append (c ∷ base) s, parts_components-append (split b'/' (c ∷ base)) (split b'/' s))
        refl

-- Paths that differ behind a slash only in parts that do the same.
normalize_behind :
    (base s t : Text)
    → ((out : Buf)
        → push_all (parts_components (split b'/' s)) out
          ≡ push_all (parts_components (split b'/' t)) out)
    → normalize_path (base ++ b'/' ∷ s) ≡ normalize_path (base ++ b'/' ∷ t)
unfolding normalize_path
normalize_behind base s t same = ap show_path (pushed s ∙ same _ ∙ sym (pushed t))
  where
    pushed :
        (u : Text)
        → push_all (components (base ++ b'/' ∷ u)) empty_path
          ≡ push_all
              (parts_components (split b'/' u))
              (push_all (parts_components (split b'/' base)) (push_all (lead base) empty_path))
    pushed u =
        ap (λ cs. push_all cs empty_path) (components_behind base u)
        ∙ push_all-append (lead base)
            (parts_components (split b'/' base) ++ parts_components (split b'/' u)) empty_path
        ∙ push_all-append (parts_components (split b'/' base)) (parts_components (split b'/' u))
            (push_all (lead base) empty_path)

-- A name and a `..` behind it, `.`, and `..` at the root.
up_again :
    (name rest : Text) (out : Buf)
    → Clean name
    → push_all (parts_components (split b'/' (name ++ (codes "/../" ++ rest)))) out
      ≡ push_all (parts_components (split b'/' rest)) out
unfolding parts_components component push_all push contains_char text_eq
up_again name rest out (e, d, w) =
    ap (λ ps. push_all (parts_components ps) out) parts ∙ rw (e, d) refl
  where
    parts : split b'/' (name ++ (codes "/../" ++ rest)) ≡ name ∷ codes ".." ∷ split b'/' rest
    parts =
        split-append b'/' name (codes "../" ++ rest) w
        ∙ ap (◌∷◌ name) (split-append b'/' (codes "..") rest refl)

stay :
    (rest : Text) (out : Buf)
    → push_all (parts_components (split b'/' (codes "./" ++ rest))) out
      ≡ push_all (parts_components (split b'/' rest)) out
unfolding parts_components component text_eq contains_char
stay rest out =
    ap (λ ps. push_all (parts_components ps) out) (split-append b'/' (codes ".") rest refl)

above_root : (rest : Text) → normalize_path (codes "/../" ++ rest) ≡ normalize_path (b'/' ∷ rest)
unfolding normalize_path parts_components component text_eq contains_char push_all push lead
above_root rest =
    ap (λ cs. show_path (push_all cs empty_path))
      (components_behind [] (codes "../" ++ rest)
        ∙ ap (λ ps. lead [] ++ (parts_components (split b'/' []) ++ parts_components ps))
            (split-append b'/' (codes "..") rest refl))
    ∙ sym (ap (λ cs. show_path (push_all cs empty_path)) (components_behind [] rest))

normalize_path-names :
    (rooted : Bool) (names : List Text)
    → All Clean names
    → let path = if rooted then b'/' ∷ join (codes "/") names else join (codes "/") names in
      normalize_path path ≡ path
unfolding normalize_path show_path
normalize_path-names rooted names h =
    ap (λ cs. show_path (push_all cs empty_path)) (components-names rooted names h)
    ∙ ap show_path (push_all-started rooted names)
    ∙ ap (λ ns. if rooted then b'/' ∷ join (codes "/") ns else join (codes "/") ns)
        (backwards_twice names [] [] ∙ append-nil names)

-- Normalizing leaves a path of names, relative or absolute, as it is; a name and a `..` behind it
-- can be taken out anywhere behind a slash, and so can a `.`; a `..` at the root does nothing; and to
-- normalize once more changes nothing. A name is not empty, not `.` or `..`, and has no slash.
pub normalize_path_lem :
    (base name rest : Text) (rooted : Bool) (names : List Text)
    → Clean name
    → All Clean names
    → (let path = if rooted then b'/' ∷ join (codes "/") names else join (codes "/") names in
        normalize_path path ≡ path)
      × (normalize_path (base ++ b'/' ∷ (name ++ (codes "/../" ++ rest)))
          ≡ normalize_path (base ++ b'/' ∷ rest))
      × (normalize_path (base ++ b'/' ∷ (codes "./" ++ rest))
          ≡ normalize_path (base ++ b'/' ∷ rest))
      × (normalize_path (codes "/../" ++ rest) ≡ normalize_path (b'/' ∷ rest))
      × (normalize_path (normalize_path base) ≡ normalize_path base)
normalize_path_lem base name rest rooted names c h = (
  normalize_path-names rooted names h,
  normalize_behind base (name ++ (codes "/../" ++ rest)) rest (λ out. up_again name rest out c),
  normalize_behind base (codes "./" ++ rest) rest (stay rest),
  above_root rest,
  normalize_path-normalize_path base,
)
