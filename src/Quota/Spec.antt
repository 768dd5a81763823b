-- ===== src/Quota/Spec.antt =====
-- What a quota promises: a limit and an amount in use, counted in units without overflow.
use small.Base.{ℕ, ◌+◌, ◌-◌, ◌*◌, ◌/◌, Option, none, some, ltb, if◌then◌else◌}

pub record Limit : Type 0 where
  pub total : ℕ
  pub used : ℕ

-- Sizes are counted in units of 1024 bytes, rounded up.
abbrev pub ceil_units : ℕ → ℕ
ceil_units size = (size + 1023) / 1024

-- Take `size` bytes if as much is left; a refused call changes nothing.
unfoldable pub take : Limit → ℕ → Option ℕ × Limit
take l size =
    if ltb l.total (l.used + ceil_units size)
    then (none, l)
    else (some (ceil_units size * 1024), record l { used = l.used + ceil_units size })

-- Give back `size` bytes.
unfoldable pub give : Limit → ℕ → ℕ × Limit
give l size = (ceil_units size * 1024, record l { used = l.used - ceil_units size })

-- Set the limit, not below what is in use.
unfoldable pub limit : Limit → ℕ → Option ℕ × Limit
limit l size =
    if ltb (ceil_units size) l.used
    then (none, l)
    else (some (ceil_units size * 1024), record l { total = ceil_units size })
