-- ===== src/Ovsdb/BackOff.antt =====
-- The back-off between the rounds of an upgrade.
use microovn.Prelude.{ℕ, zero, suc, ◌*◌, ◌^◌, ◌≤◌, ltb, ◌≡◌, refl, ap, arith, if◌then◌else◌}
use microovn.Ovsdb.{next_back_off}

-- The milliseconds before the round that follows n others.
unfoldable pub back_off_after : ℕ → ℕ
back_off_after zero = 100
back_off_after (suc n) = next_back_off (back_off_after n)

capped : (n : ℕ) → 5 ≤ n → back_off_after n ≡ 2000
unfolding back_off_after next_back_off
capped zero h = absurd (omega arith)
capped (suc zero) h = absurd (omega arith)
capped (suc (suc zero)) h = absurd (omega arith)
capped (suc (suc (suc zero))) h = absurd (omega arith)
capped (suc (suc (suc (suc zero)))) h = absurd (omega arith)
capped (suc (suc (suc (suc (suc zero))))) h = refl
capped (suc (suc (suc (suc (suc (suc n)))))) h =
    ap next_back_off (capped (suc (suc (suc (suc (suc n))))) (omega arith))

-- The back-off doubles from 100 ms and stays at 2000 ms from the sixth round on.
pub back_off_after-value : (n : ℕ) → back_off_after n ≡ (if ltb n 5 then 100 * 2 ^ n else 2000)
unfolding back_off_after next_back_off
back_off_after-value zero = refl
back_off_after-value (suc zero) = refl
back_off_after-value (suc (suc zero)) = refl
back_off_after-value (suc (suc (suc zero))) = refl
back_off_after-value (suc (suc (suc (suc zero)))) = refl
back_off_after-value (suc (suc (suc (suc (suc n))))) =
    let c = capped (suc (suc (suc (suc (suc n))))) (omega arith) in ground arith
