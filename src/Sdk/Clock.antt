-- ===== src/Sdk/Clock.antt =====
-- Go's `time.Time`: nanoseconds since January 1 of year 1, which is the zero value, and the name of
-- the location that it is shown in. Earlier instants are left out.
use dbprobe.Base.{ℕ, ◌≡◌, refl, Bool, String, ltb, nat_eq}

pub record Time : Type 0 where
  pub instant : ℕ
  pub zone : String

unfoldable pub is_zero : Time → Bool
is_zero t = nat_eq t.instant 0

unfoldable pub utc : Time → Time
utc t = record t { zone = "UTC" }

unfoldable pub before : Time → Time → Bool
before t u = ltb t.instant u.instant

unfoldable pub after : Time → Time → Bool
after t u = ltb u.instant t.instant

-- `Equal` compares instants, whatever the locations
unfoldable pub same_instant : Time → Time → Bool
same_instant t u = nat_eq t.instant u.instant

pub utc_idem : (t : Time) → utc (utc t) ≡ utc t
unfolding utc
utc_idem t = refl

pub is_zero-utc : (t : Time) → is_zero (utc t) ≡ is_zero t
unfolding utc is_zero
is_zero-utc t = refl
