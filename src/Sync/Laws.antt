-- ===== src/Sync/Laws.antt =====
-- When the synchronisation counts as healthy, and how exact the printed durations are.
use slai.Base.{
  ℕ, ◌+◌, ◌*◌, ◌/◌, ◌%◌, ltb, ◌≤◌, ◌<◌, ◌≡◌, ◌↔◌, refl, Bool, true, false, not, arith, if_split,
}
use slai.Text.{has_text}
use slai.Sync.{
  SyncStatus, green, BannerState, banner_of, Duration, milliseconds, seconds, minutes,
  minutes_seconds, duration,
}

abbrev IsHealthy : SyncStatus → Type 0
IsHealthy s =
    (has_text s.last_error ≡ false)
    × (s.worker_enabled ≡ true)
    × (has_text s.last_started_at ≡ true)
    × (has_text s.last_success_at ≡ true)

not-false : (b : Bool) → not b ≡ false → b ≡ true
not-false b h = ground arith

green→IsHealthy : (s : SyncStatus) → (banner_of s).tone ≡ green → IsHealthy s
unfolding banner_of
green→IsHealthy s =
    if_split Healthy (has_text s.last_error) (λ e h. cc)
      (λ e.
        if_split Healthy (not s.worker_enabled) (λ f h. cc)
          (λ f.
            if_split Healthy (not (has_text s.last_started_at)) (λ g h. cc)
              (λ g.
                if_split Healthy (has_text s.last_success_at)
                  (λ k h.
                    (e, not-false s.worker_enabled f, not-false (has_text s.last_started_at) g, k))
                  (λ k h. cc))))
  where
    Healthy : BannerState → Type 0
    Healthy b = b.tone ≡ green → IsHealthy s

IsHealthy→green : (s : SyncStatus) → IsHealthy s → (banner_of s).tone ≡ green
unfolding banner_of
IsHealthy→green s (e, f, g, k) = rw (e, f, g, k) refl

-- The banner says that the synchronisation is healthy exactly when no error is recorded, the worker
-- is enabled, and a start and a success are recorded.
banner-green_iff :
    (s : SyncStatus)
    → ((banner_of s).tone ≡ green) ↔ (
        (has_text s.last_error ≡ false)
        × (s.worker_enabled ≡ true)
        × (has_text s.last_started_at ≡ true)
        × (has_text s.last_success_at ≡ true))
banner-green_iff s = (green→IsHealthy s, IsHealthy→green s)

-- The milliseconds that a printed duration stands for.
abbrev pub value : Duration → ℕ
value (milliseconds n) = n
value (seconds n) = n * 1000
value (minutes m) = m * 60000
value (minutes_seconds m s) = m * 60000 + s * 1000

abbrev pub IsNormal : Duration → Type 0
IsNormal (milliseconds n) = n < 1000
IsNormal (seconds n) = (1 ≤ n) × (n < 60)
IsNormal (minutes m) = 1 ≤ m
IsNormal (minutes_seconds m s) = (1 ≤ m) × (1 ≤ s) × (s < 60)

abbrev IsNear : ℕ → Duration → Type 0
IsNear ms d = IsNormal d × (ms ≤ value d + 500) × (value d ≤ ms + 500)

-- A duration is shown as fewer than 1000 milliseconds, as 1 to 59 seconds, or as at least one
-- minute with fewer than 60 seconds, and what is shown is within half a second of the duration.
pub duration-IsNear :
    (ms : ℕ)
    → IsNormal (duration ms) × (ms ≤ value (duration ms) + 500) × (value (duration ms) ≤ ms + 500)
unfolding duration
duration-IsNear ms =
    let total = (ms + 500) / 1000 in
    if_split (IsNear ms) (ltb ms 1000) (λ e. ground arith)
      (λ e.
        if_split (IsNear ms) (ltb total 60) (λ f. ground arith)
          (λ f. if_split (IsNear ms) (ltb 0 (total % 60)) (λ g. ground arith) (λ g. ground arith)))
