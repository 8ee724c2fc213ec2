-- ===== src/Tests/Text.antt =====
-- Numerals and white space on sample texts.
use streaming_fpuna_proyecto.Base.{◌≡◌, refl, true, false}
use streaming_fpuna_proyecto.Base.Int.{pos, negsuc}
use streaming_fpuna_proyecto.Base.Decimal.{decimal_ℤ}
use streaming_fpuna_proyecto.Base.Text.{strip, is_blank, replace_utc}

decimal_runs :
    (decimal_ℤ (pos 1_786_305_590_000) ≡ "1786305590000") × (decimal_ℤ (negsuc 9) ≡ "-10")
unfolding decimal_ℤ
decimal_runs = (refl, refl)

strip_runs : (strip "  a b " ≡ "a b") × (is_blank "  " ≡ true) × (is_blank " a" ≡ false)
unfolding strip is_blank
strip_runs = (refl, refl, refl)

replace_runs : replace_utc "2026-01-01T00:00:00.000+00:00" ≡ "2026-01-01T00:00:00.000Z"
unfolding replace_utc
replace_runs = refl
