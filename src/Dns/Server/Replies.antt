-- ===== src/Dns/Server/Replies.antt =====
-- Which datagram of the upstream counts as the reply to a query, src/dns/server.rs.
use dip_rust.Base.{
  ◌≤◌, ◌≡◌, refl, ap, ◌⊎◌, inl, inr, true, false, ◌&&◌, Option, none, some, List, [], ◌∷◌, ◌++◌,
  arith, leb, Bool-cases, length, take, All,
}
use dip_rust.Dns.Exec.{Exec, found, missing}
use dip_rust.Dns.Server.{Bytes, await_reply, into_buffer}
use dip_rust.Text.Equality.{text_eq_iff}
use dip_rust.Text.{text_eq}

-- A datagram whose first 4096 bytes start with the two bytes of the query's id.
abbrev pub Echoes : Bytes → Bytes → Type 0
Echoes query datagram =
    (2 ≤ length (take 4096 datagram)) × (take 2 (take 4096 datagram) ≡ take 2 query)

-- The first datagram that echoes the id, or none of them does.
abbrev pub Picked : Bytes → List Bytes → Option Bytes → Type 0
Picked query datagrams reply =
    ((reply ≡ none) × All (λ d. ¬ Echoes query d) datagrams)
    ⊎ ((before : List Bytes) × (datagram : Bytes) × (after : List Bytes) × (datagrams
          ≡ before ++ datagram ∷ after)
        × All (λ d. ¬ Echoes query d) before
        × Echoes query datagram
        × (reply ≡ some (take 4096 datagram)))

-- What is sent back then.
abbrev pub sent_back : Option Bytes → Exec Bytes
sent_back none = missing
sent_back (some reply) = found reply

reflects_id :
    (query d : Bytes)
    → (leb 2 (length (into_buffer d)) && text_eq (take 2 (into_buffer d)) (take 2 query) ≡ true
        → Echoes query d)
      × (leb 2 (length (into_buffer d)) && text_eq (take 2 (into_buffer d)) (take 2 query) ≡ false
          → ¬ Echoes query d)
unfolding into_buffer
reflects_id query d = (
  λ h. ground (arith, text_eq_iff (take 2 (take 4096 d)) (take 2 query)),
  λ h e. ground (arith, text_eq_iff (take 2 (take 4096 d)) (take 2 query)),
)

pub await_reply-Picked :
    (query : Bytes) (datagrams : List Bytes) → Picked query datagrams (await_reply query datagrams)
unfolding await_reply into_buffer
await_reply-Picked query [] = inl (refl, tt)
await_reply-Picked query (d ∷ ds) =
    elim (Bool-cases
      (leb 2 (length (into_buffer d)) && text_eq (take 2 (into_buffer d)) (take 2 query))) [
        | inl e ↦ inr ([], d, ds, refl, tt, (reflects_id query d).0 e, rw e refl)
        | inr e ↦ rw e (elim (await_reply-Picked query ds) [
          | inl (none_left, others) ↦ inl (none_left, ((reflects_id query d).1 e, others))
          | inr (before, x, after, split, others, echoes, found_there) ↦ inr (
            d ∷ before,
            x,
            after,
            ap (◌∷◌ d) split,
            ((reflects_id query d).1 e, others),
            echoes,
            found_there,
          )
        ])
      ]
