-- ===== src/Controller/Ttl.antt =====
-- `ttlExpired` of internal/controller/atom_controller.go, with the wrap-around of `time.Duration`.
pub mod Laws
use atom_operator.Prelude.{
  ℕ, suc, ◌+◌, ◌-◌, ◌*◌, ◌%◌, Bool, false, Option, none, some, ltb, if◌then◌else◌,
}
use atom_operator.Prelude.Int.{ℤ, pos, negsuc, ◌+ℤ◌, ◌*ℤ◌, ltb_ℤ}
use atom_operator.Api.Model.{Time, Lifecycle}
use atom_operator.Api.V3.{Atom}

-- An int64 in two's complement.
unfoldable pub wrap64 : ℤ → ℤ
wrap64 (pos n) =
    let m = n % 18446744073709551616 in
    if ltb m 9223372036854775808 then pos m else negsuc (18446744073709551615 - m)
wrap64 (negsuc n) =
    let m = n % 18446744073709551616 in
    if ltb m 9223372036854775808 then negsuc m else pos (18446744073709551615 - m)

-- `time.Duration(days) * 24 * time.Hour`, from the left.
unfoldable pub ttl_duration : ℤ → ℤ
unfolding wrap64
ttl_duration days = wrap64 (wrap64 (days *ℤ pos 24) *ℤ pos 3600000000000)

-- The tests of `ttlExpired` for nil pointers.
unfoldable pub lifetime : Option Lifecycle → Option ℤ
lifetime none = none
lifetime (some lifecycle) = lifecycle.ttl_in_days

unfoldable pub expired_at : ℤ → Time → Option ℤ → Bool
unfolding ttl_duration
expired_at now creation none = false
expired_at now creation (some days) = ltb_ℤ (creation.instant +ℤ ttl_duration days) now

-- `now` is the time at the call, in nanoseconds.
unfoldable pub ttl_expired : {URL : Type 0} → ℤ → Atom URL → Bool
unfolding lifetime expired_at
ttl_expired now atom = expired_at now atom.meta.creation_timestamp (lifetime atom.spec.lifecycle)
