-- ===== src/Text/Utf8.antt =====
-- `str::from_utf8`: the code points that bytes encode, or `none` if they are no UTF-8.
use dip_rust.Base.{
  ℕ, zero, suc, ◌+◌, ◌-◌, ◌*◌, ◌<◌, ◌≡◌, refl, ◌&&◌, Option, none, some, List, [], ◌∷◌, arith, ltb,
  leb, ◌==◌, if◌then◌else◌, ◌>>=◌, All,
}
use dip_rust.Text.{Text}

-- How many bytes of a character are still to come, the range of the next one, and the bits so far.
pub record Pending : Type 0 where
  pub missing : ℕ
  pub lo : ℕ
  pub hi : ℕ
  pub bits : ℕ

abbrev pub settled : Pending
settled = record { missing = 0; lo = 0; hi = 0; bits = 0 }

abbrev expect : ℕ → ℕ → ℕ → ℕ → Pending
expect missing lo hi bits = record { missing = missing; lo = lo; hi = hi; bits = bits }

lead_byte : ℕ → Option (Option ℕ × Pending)
lead_byte a =
    if ltb a 0x80
    then some (some a, settled)
    else if leb 0xc2 a && leb a 0xdf
    then some (none, expect 1 0x80 0xbf (a - 0xc0))
    else if a == 0xe0
    then some (none, expect 2 0xa0 0xbf 0)
    else if a == 0xed
    then some (none, expect 2 0x80 0x9f 0xd)
    else if leb 0xe1 a && leb a 0xef
    then some (none, expect 2 0x80 0xbf (a - 0xe0))
    else if a == 0xf0
    then some (none, expect 3 0x90 0xbf 0)
    else if a == 0xf4
    then some (none, expect 3 0x80 0x8f 4)
    else if leb 0xf1 a && leb a 0xf3
    then some (none, expect 3 0x80 0xbf (a - 0xf0))
    else none

next_byte : Pending → ℕ → ℕ → Option (Option ℕ × Pending)
next_byte p zero a = lead_byte a
next_byte p (suc left) a =
    let bits = p.bits * 64 + (a - 0x80) in
    if leb p.lo a && leb a p.hi
    then some (if left == 0 then (some bits, settled) else (none, expect left 0x80 0xbf bits))
    else none

abbrev cons_some : Option ℕ → Text → Text
cons_some none s = s
cons_some (some c) s = c ∷ s

decode : Pending → List ℕ → Option Text
decode p [] = if p.missing == 0 then some [] else none
decode p (a ∷ s) = elim (next_byte p p.missing a) [
  | none ↦ none
  | some (c, q) ↦ decode q s >>= λ t. some (cons_some c t)
]

unfoldable pub from_utf8 : List ℕ → Option Text
unfolding decode next_byte lead_byte
from_utf8 = decode settled

-- ASCII bytes stand for themselves.
decode-ascii : (s : List ℕ) → All (λ c. c < 0x80) s → decode settled s ≡ some s
unfolding decode next_byte lead_byte
decode-ascii [] h = refl
decode-ascii (c ∷ s) h = ground (arith, decode-ascii s h.1)

pub from_utf8-ascii : (s : List ℕ) → All (λ c. c < 0x80) s → from_utf8 s ≡ some s
unfolding from_utf8
from_utf8-ascii s h = decode-ascii s h

euro_sign : from_utf8 (0xe2 ∷ 0x82 ∷ 0xac ∷ b'x' ∷ []) ≡ some (0x20ac ∷ b'x' ∷ [])
unfolding from_utf8
euro_sign = refl

surrogate_refused : from_utf8 (0xed ∷ 0xa0 ∷ 0x80 ∷ []) ≡ none
unfolding from_utf8
surrogate_refused = refl
