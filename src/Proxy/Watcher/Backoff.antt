-- ===== src/Proxy/Watcher/Backoff.antt =====
-- The delay between the attempts of `run`.
use dip_rust.Base.{ℕ, ◌*◌, ◌≤◌, ◌≡◌, Bool, true, false, List, [], ◌∷◌, arith}
use dip_rust.Proxy.Watcher.{next_backoff}

-- The delay after a list of outcomes, the newest first; `true` is a loop that ended well.
unfoldable pub backoff_after : List Bool → ℕ
unfolding next_backoff
backoff_after [] = 2
backoff_after (ended_well ∷ earlier) = next_backoff ended_well (backoff_after earlier)

-- The delay is always between two and thirty seconds; it is two after a loop that ended well, and
-- from an error on it is the double of the delay before, or thirty if that is more.
pub backoff_bounds :
    (earlier : List Bool)
    → (2 ≤ backoff_after earlier)
      × (backoff_after earlier ≤ 30)
      × (backoff_after (true ∷ earlier) ≡ 2)
      × (backoff_after earlier ≤ 15 → backoff_after (false ∷ earlier) ≡ 2 * backoff_after earlier)
      × (15 ≤ backoff_after earlier → backoff_after (false ∷ earlier) ≡ 30)
unfolding backoff_after
backoff_bounds [] = omega arith
backoff_bounds (true ∷ earlier) = omega (arith, backoff_bounds earlier)
backoff_bounds (false ∷ earlier) = ground (arith, backoff_bounds earlier)
