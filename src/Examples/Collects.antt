-- ===== src/Examples/Collects.antt =====
-- What a partner may be asked for, at concrete settings.
use ara.Prelude.{◌≡◌, refl, true, false, [], ◌∷◌, string_dec, ℕ_discrete, dec_le}
use ara.Credentials.{split, trim_space}
use ara.CollectSettings.{CollectSettings, collect_settings, can_collect, include}

abbrev settings : CollectSettings
settings = collect_settings "" "" "A" "q"

-- a stop area on the line A is collected, but not the one that is excluded
collected_test : can_collect settings [] "p" ("A" ∷ []) ≡ true
unfolding can_collect collect_settings include string_dec ℕ_discrete dec_le split trim_space
collected_test = refl

excluded_test : can_collect settings [] "q" ("A" ∷ []) ≡ false
unfolding can_collect collect_settings include string_dec ℕ_discrete dec_le split trim_space
excluded_test = refl
