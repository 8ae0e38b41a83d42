-- ===== src/Sessions/Boundary.antt =====
-- A password reset and the tokens issued before and after it.
use kelolakelas_identity_ser.Base.{
  ◌≤◌, ◌+◌, ◌*◌, ◌/◌, ◌%◌, ◌≡◌, true, false, Option, none, some, arith,
}
use kelolakelas_identity_ser.Schema.{Time}
use kelolakelas_identity_ser.Resets.{second, next_boundary}
use kelolakelas_identity_ser.Sessions.{Jwt, issue_at, issued_before}

-- jwt.NewNumericDate cuts a time to jwt.TimePrecision, one second.
pub record IsJwt (lib : Jwt) : Type 0 where
  pub numeric_date-second : (t : Time) → lib.numeric_date t ≡ t / second * second

-- The boundary stands on a whole second, as the ones that a reset writes do.
abbrev WholeSecond : Option Time → Type 0
WholeSecond none = Unit
WholeSecond (some v) = v % second ≡ 0

-- A reset at `now` refuses every token that was issued up to then, also one dated forward to the
-- earlier boundary; a token issued under the new boundary is accepted, however soon. The earlier
-- boundary stands on a whole second, and NewNumericDate cuts to one.
pub reset_revokes :
    (lib : Jwt) (now t later : Time) (valid_after : Option Time)
    → IsJwt lib
    → WholeSecond valid_after
    → t ≤ now
    → let boundary = next_boundary now valid_after in
      (issued_before (some (lib.numeric_date (issue_at t valid_after))) (some boundary) ≡ true)
      × (issued_before (some (lib.numeric_date (issue_at later (some boundary)))) (some boundary)
          ≡ false)
unfolding next_boundary issue_at issued_before
reset_revokes lib now t later none laws w h = (
  ground (arith, laws.numeric_date-second t),
  ground (
    arith,
    laws.numeric_date-second later,
    laws.numeric_date-second (now / second * second + second),
  ),
)
reset_revokes lib now t later (some v) laws w h = (
  ground (arith, laws.numeric_date-second t, laws.numeric_date-second v),
  ground (
    arith,
    laws.numeric_date-second later,
    laws.numeric_date-second (now / second * second + second),
    laws.numeric_date-second (v + second),
  ),
)
