-- ===== src/Alerts/Store/Dedupe.antt =====
-- Alerts of one key are kept apart.
use mathlib.Core.List.{Memᴰ, Sublistᴰ}
use mathlib.Core.List.Sublistᴰ
use flux_lens.Base.{◌+◌, ◌≤◌, ◌≡◌, List, [], ◌∷◌, ◌⊎◌, ◌≢◌, ◌<◌, All}
use flux_lens.Alerts.Store.{dedupe_key}
use flux_lens.Alerts.Store.History.{Call, window}

-- The clock does not run backwards within one call.
abbrev pub IsOrdered : Call → Type 0
IsOrdered c = c.since ≤ c.now

-- Between two taken alerts of one key at least 45 seconds pass.
abbrev pub IsSpaced : List Call → Type 0
IsSpaced [] = Unit
IsSpaced (c ∷ h) =
    All (λ d. dedupe_key d.alert ≡ dedupe_key c.alert → d.now + window ≤ c.since) h × IsSpaced h

-- Of two taken alerts, the later first, either the keys differ or 45 seconds lie between them.
abbrev pub AreApart : Call → Call → Type 0
AreApart c d = (dedupe_key d.alert ≢ dedupe_key c.alert) ⊎ (d.now + window ≤ c.since)

abbrev pub AllApart : List Call → Type 0
AllApart [] = Unit
AllApart (c ∷ h) = All (AreApart c) h × AllApart h

-- A call that was taken, or one that came less than 45 seconds after a taken one of its key.
abbrev pub IsCovered : List Call → Call → Type 0
IsCovered h c =
    Memᴰ c h
    ⊎ ((d : Call) × Memᴰ d h
        × (dedupe_key d.alert ≡ dedupe_key c.alert)
        × (c.since < d.now + window))
