-- ===== src/Retention/Dates.antt =====
-- What `compare_dates` says of two dates that are known.
use dsh_session_maintenance.Prelude.{
  ℕ, ◌≤◌, ◌≡◌, Bool, true, false, Option, none, some, is_some, arith, nat_eq,
}
use dsh_session_maintenance.Retention.Selection.{compare_dates}

abbrev pub or_zero : Option ℕ → ℕ
or_zero none = 0
or_zero (some n) = n

pub compare_dates-above :
    (x y : Option ℕ) (by_id : Bool)
    → is_some x ≡ true
    → is_some y ≡ true
    → compare_dates x y by_id ≡ true
    → or_zero x ≤ or_zero y
unfolding compare_dates
compare_dates-above (some m) (some n) by_id h k e = ground (arith, e)
compare_dates-above none y by_id h k e = absurd (ground arith)
compare_dates-above (some m) none by_id h k e = absurd (ground arith)

pub compare_dates-below :
    (x y : Option ℕ) (by_id : Bool)
    → is_some x ≡ true
    → is_some y ≡ true
    → compare_dates x y by_id ≡ false
    → or_zero y ≤ or_zero x
unfolding compare_dates
compare_dates-below (some m) (some n) by_id h k e = ground (arith, e)
compare_dates-below none y by_id h k e = absurd (ground arith)
compare_dates-below (some m) none by_id h k e = absurd (ground arith)
