-- ===== src/ReplayCache/Sweep.antt =====
-- What the full sweep removes, and what it keeps.
use aafp_go.Base.{ℕ, ◌≡◌, false, Bytes}
use aafp_go.ReplayCache.{Entry, ReplayCache, is_expired}

abbrev IsLive : ℕ → Bytes × Entry → Type 0
IsLive now p = is_expired p.1 now ≡ false
