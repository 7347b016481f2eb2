-- ===== src/Compose/Paths/Normal.antt =====
-- Normal paths: what `normalize_path` returns.
use dip_rust.Base.{
  ℕ, ◌≡◌, refl, ap, ◌∙◌, inl, inr, Bool, true, false, ◌||◌, List, [], ◌∷◌, ◌++◌, map, append-nil,
  arith, ◌==◌, if◌then◌else◌, Bool-cases, All, All-append,
}
use dip_rust.Text.{Text, codes, text_eq, is_empty, contains_char, split, join}
use dip_rust.Text.Split.{split-append, split_self, split-Without, Without}
use dip_rust.Compose.Paths.{
  show_path, normalize_path, Component, root_dir, cur_dir, parent_dir, normal, component,
  parts_components, is_absolute, front, components, Buf, pop_name, push, push_all, backwards,
}

-- A name: neither empty nor `.` nor `..`, and without a slash.
abbrev pub Clean : Text → Type 0
Clean name =
    (is_empty name || text_eq name (codes ".") ≡ false)
    × (text_eq name (codes "..") ≡ false)
    × (contains_char b'/' name ≡ false)

abbrev CleanComponent : Component → Type 0
CleanComponent (normal name) = Clean name
CleanComponent _ = Unit

Clean-component :
    (part : Text) (later : List Component)
    → Without b'/' part
    → All CleanComponent later
    → All CleanComponent (component part later)
unfolding component
Clean-component part later w h = elim (Bool-cases (is_empty part || text_eq part (codes "."))) [
  | inl e ↦ rw e h
  | inr e ↦ elim (Bool-cases (text_eq part (codes ".."))) [
    | inl d ↦ rw (e, d) (tt, h)
    | inr d ↦ rw (e, d) ((e, d, w), h)
  ]
]

Clean-parts :
    (parts : List Text) → All (Without b'/') parts → All CleanComponent (parts_components parts)
unfolding parts_components
Clean-parts [] h = tt
Clean-parts (part ∷ parts) (w, h) =
    Clean-component part (parts_components parts) w (Clean-parts parts h)

Clean-front : (parts : List Text) → All CleanComponent (front parts)
unfolding front
Clean-front [] = tt
Clean-front (part ∷ parts) = elim (Bool-cases (text_eq part (codes "."))) [
  | inl e ↦ rw e (tt, tt)
  | inr e ↦ rw e tt
]

Clean-components : (path : Text) → All CleanComponent (components path)
unfolding components
Clean-components path =
    All-append CleanComponent (if is_absolute path then root_dir ∷ [] else front (split b'/' path))
      _ (start (is_absolute path)) (Clean-parts (split b'/' path) (split-Without b'/' path))
  where
    start : (b : Bool) → All CleanComponent (if b then root_dir ∷ [] else front (split b'/' path))
    start true = (tt, tt)
    start false = Clean-front (split b'/' path)

Clean-pop : (names : List Text) → All Clean names → All Clean (pop_name names)
Clean-pop [] h = tt
Clean-pop (name ∷ names) (c, h) = h

Clean-push :
    (c : Component) (out : Buf)
    → CleanComponent c
    → All Clean (Buf.names out)
    → All Clean (Buf.names (push c out))
unfolding push
Clean-push root_dir out k h = tt
Clean-push cur_dir out k h = h
Clean-push parent_dir out k h = Clean-pop (Buf.names out) h
Clean-push (normal name) out k h = (k, h)

Clean-push_all :
    (cs : List Component) (out : Buf)
    → All CleanComponent cs
    → All Clean (Buf.names out)
    → All Clean (Buf.names (push_all cs out))
unfolding push_all
Clean-push_all [] out k h = h
Clean-push_all (c ∷ cs) out (k, ks) h = Clean-push_all cs (push c out) ks (Clean-push c out k h)

All-backwards :
    (names out : List Text) → All Clean names → All Clean out → All Clean (backwards names out)
All-backwards [] out h k = k
All-backwards (name ∷ names) out (c, h) k = All-backwards names (name ∷ out) h (c, k)

pub backwards_twice :
    (names ys zs : List Text) → backwards (backwards names ys) zs ≡ backwards ys (names ++ zs)
backwards_twice [] ys zs = refl
backwards_twice (name ∷ names) ys zs = backwards_twice names (name ∷ ys) zs

-- The names of a path that is shown are its parts.
split-join :
    (name : Text) (names : List Text)
    → All Clean (name ∷ names)
    → split b'/' (join (codes "/") (name ∷ names)) ≡ name ∷ names
unfolding join
split-join name [] ((_, _, w), h) = split_self b'/' name w
split-join name (n ∷ names) ((_, _, w), h) =
    split-append b'/' name (join (codes "/") (n ∷ names)) w ∙ ap (◌∷◌ name) (split-join n names h)

parts_components-Clean :
    (names : List Text) → All Clean names → parts_components names ≡ map normal names
unfolding parts_components component
parts_components-Clean [] h = refl
parts_components-Clean (name ∷ names) ((e, d, w), h) =
    rw (e, d, parts_components-Clean names h) refl

push_all-normal :
    (names : List Text) (rooted : Bool) (out : List Text)
    → push_all (map normal names) (record { rooted = rooted; names = out })
      ≡ record { rooted = rooted; names = backwards names out }
unfolding push_all push
push_all-normal [] rooted out = refl
push_all-normal (name ∷ names) rooted out = push_all-normal names rooted (name ∷ out)

parts_of-join :
    (names : List Text)
    → All Clean names
    → parts_components (split b'/' (join (codes "/") names)) ≡ map normal names
unfolding join split parts_components component text_eq
parts_of-join [] h = refl
parts_of-join (name ∷ names) h =
    ap parts_components (split-join name names h) ∙ parts_components-Clean (name ∷ names) h

-- A relative path that starts with a name.
first_char : (c : ℕ) (s : Text) → contains_char b'/' (c ∷ s) ≡ false → c == b'/' ≡ false
unfolding contains_char
first_char c s h = ground arith

is_absolute-join :
    (name : Text) (names : List Text)
    → Clean name
    → is_absolute (join (codes "/") (name ∷ names)) ≡ false
unfolding join
is_absolute-join [] names (e, _, _) = elim (wrong e) [ ]
  where
    wrong : true ≡ false → ⊥
    wrong h = cc
is_absolute-join (c ∷ s) [] (_, _, w) = first_char c s w
is_absolute-join (c ∷ s) (n ∷ names) (_, _, w) = first_char c s w

front-name : (name : Text) (names : List Text) → Clean name → front (name ∷ names) ≡ []
unfolding front
front-name name names (e, _, _) = rw (no_dot (is_empty name) (text_eq name (codes ".")) e) refl
  where
    no_dot : (a b : Bool) → a || b ≡ false → b ≡ false
    no_dot true b h = cc
    no_dot false b h = h

abbrev started : Bool → List Component
started true = root_dir ∷ []
started false = []

pub components-names :
    (rooted : Bool) (names : List Text)
    → All Clean names
    → components (if rooted then b'/' ∷ join (codes "/") names else join (codes "/") names)
      ≡ started rooted ++ map normal names
unfolding components split parts_components component text_eq join
components-names true names h = ap (◌∷◌ root_dir) (parts_of-join names h)
components-names false [] h = front_empty
  where
    front_empty : front ([] ∷ []) ++ [] ≡ []
    front_empty = refl
components-names false (name ∷ names) (c, h) =
    rw (is_absolute-join name names c, split-join name names (c, h), front-name name names c)
      (parts_components-Clean (name ∷ names) (c, h))

abbrev pub empty_path : Buf
empty_path = record { rooted = false; names = [] }

pub push_all-started :
    (rooted : Bool) (names : List Text)
    → push_all (started rooted ++ map normal names) empty_path
      ≡ record { rooted = rooted; names = backwards names [] }
unfolding push_all push
push_all-started true names = push_all-normal names true []
push_all-started false names = push_all-normal names false []

show_path-components :
    (b : Buf) → All Clean (Buf.names b) → push_all (components (show_path b)) empty_path ≡ b
unfolding show_path
show_path-components b h =
    ap (λ cs. push_all cs empty_path)
      (components-names (Buf.rooted b) (backwards (Buf.names b) [])
        (All-backwards (Buf.names b) [] h tt))
    ∙ (push_all-started (Buf.rooted b) (backwards (Buf.names b) [])
        ∙ ap (λ ns. record { rooted = Buf.rooted b; names = ns })
            (backwards_twice (Buf.names b) [] [] ∙ append-nil (Buf.names b)))

-- A path that is normalized is normal: to normalize it once more does not change it.
pub normalize_path-normalize_path :
    (path : Text) → normalize_path (normalize_path path) ≡ normalize_path path
unfolding normalize_path
normalize_path-normalize_path path = ap show_path (
    show_path-components (push_all (components path) empty_path)
      (Clean-push_all (components path) empty_path (Clean-components path) tt))
