-- ===== src/Controller/Ttl/Laws.antt =====
-- When a resource expires.
use atom_operator.Prelude.{ℕ, ◌-◌, ◌*◌, ◌≤◌, ◌<◌, true, false, ◌≡◌, ap, ◌∙◌, arith, none, some}
use atom_operator.Prelude.Int.{ℤ, pos, negsuc, ◌+ℤ◌, ◌*ℤ◌, ltb_ℤ, ◌≤ℤ◌}
use atom_operator.Controller.Ttl.{wrap64, ttl_duration, lifetime, expired_at, ttl_expired}
use atom_operator.Api.V3.{Atom}

mul_pos : (a b : ℕ) → pos a *ℤ pos b ≡ pos (a * b)
unfolding ◌*ℤ◌
mul_pos a b = ground arith

wrap_small : (n : ℕ) → n < 9223372036854775808 → wrap64 (pos n) ≡ pos n
unfolding wrap64
wrap_small n h = ground arith

-- The duration of up to 106751 days is theirs in nanoseconds.
ttl_duration_small :
    (days : ℕ) → days ≤ 106751 → ttl_duration (pos days) ≡ pos (days * 86400000000000)
unfolding ttl_duration
ttl_duration_small days h =
    ap (λ d. wrap64 (wrap64 d *ℤ pos 3600000000000)) (mul_pos days 24)
    ∙ ap (λ d. wrap64 (d *ℤ pos 3600000000000)) (wrap_small (days * 24) (omega arith))
    ∙ ap wrap64 (mul_pos (days * 24) 3600000000000)
    ∙ wrap_small (days * 24 * 3600000000000) (omega arith)
    ∙ ap pos (omega arith)

wrap_large :
    (n : ℕ)
    → 9223372036854775808 ≤ n
    → n < 18446744073709551616
    → wrap64 (pos n) ≡ negsuc (18446744073709551615 - n)
unfolding wrap64
wrap_large n h k = ground arith

ttl_duration_large :
    (days : ℕ)
    → 106752 ≤ days
    → days ≤ 213503
    → ttl_duration (pos days) ≡ negsuc (18446744073709551615 - days * 86400000000000)
unfolding ttl_duration
ttl_duration_large days h k =
    ap (λ d. wrap64 (wrap64 d *ℤ pos 3600000000000)) (mul_pos days 24)
    ∙ ap (λ d. wrap64 (d *ℤ pos 3600000000000)) (wrap_small (days * 24) (omega arith))
    ∙ ap wrap64 (mul_pos (days * 24) 3600000000000)
    ∙ wrap_large (days * 24 * 3600000000000) (omega arith) (omega arith)
    ∙ ap (λ n. negsuc (18446744073709551615 - n)) (omega arith)

module _ {URL : Type 0} (now : ℤ) (atom : Atom URL) where
  -- A resource without a lifecycle or without a TTL never expires.
  pub ttl_expired-none : lifetime atom.spec.lifecycle ≡ none → ttl_expired now atom ≡ false
  unfolding ttl_expired expired_at
  ttl_expired-none h = rw h

  -- A resource with a TTL of 0 to 106751 days is expired exactly if the present instant lies behind the
  -- instant of its creation plus that number of days.
  pub ttl_expired-small :
      (days : ℕ)
      → lifetime atom.spec.lifecycle ≡ some (pos days)
      → days ≤ 106751
      → ttl_expired now atom
        ≡ ltb_ℤ (atom.meta.creation_timestamp.instant +ℤ pos (days * 86400000000000)) now
  unfolding ttl_expired expired_at
  ttl_expired-small days h k = rw (h, ttl_duration_small days k)

  -- A resource with a TTL of 106752 to 213503 days is expired at once: from the instant of its creation on.
  pub ttl_expired-overflow :
      (days : ℕ)
      → lifetime atom.spec.lifecycle ≡ some (pos days)
      → 106752 ≤ days
      → days ≤ 213503
      → atom.meta.creation_timestamp.instant ≤ℤ now
      → ttl_expired now atom ≡ true
  unfolding ttl_expired expired_at ◌+ℤ◌
  ttl_expired-overflow days h k l past = rw (h, ttl_duration_large days k l) (ground arith)
