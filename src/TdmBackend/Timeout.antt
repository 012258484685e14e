-- ===== src/TdmBackend/Timeout.antt =====
-- The time until which `swapchain_tdm_acquire_next_image` of src/wsi/swapchain_tdm.c waits. A
-- `time_t` has 64 bits; a time and a timeout are not negative.
use vulkan_wsi_tizen.Common.{ℕ, ◌+◌, ◌*◌, ◌/◌, ◌%◌, ◌<◌, ◌≡◌, arith, leb, if◌then◌else◌}

-- `struct timespec`
pub record Timespec : Type 0 where
  pub tv_sec : ℕ
  pub tv_nsec : ℕ

abbrev pub second : ℕ
second = 1000000000

-- The statements on `abs_time`, from the time that `clock_gettime` gave.
unfoldable pub absolute_time : Timespec → ℕ → Timespec
absolute_time now timeout =
    let sec = now.tv_sec + timeout / second in
    let nsec = now.tv_nsec + timeout % second in
    if leb second nsec
    then record { tv_sec = sec + nsec / second; tv_nsec = nsec % second }
    else record { tv_sec = sec; tv_nsec = nsec }

abbrev pub nanoseconds : Timespec → ℕ
nanoseconds t = t.tv_sec * second + t.tv_nsec

-- From a valid time the code computes the valid time that lies exactly the timeout later.
pub absolute_time-nanoseconds :
    (now : Timespec) (limit : ℕ)
    → now.tv_nsec < second
    → (nanoseconds (absolute_time now limit) ≡ nanoseconds now + limit)
      × ((absolute_time now limit).tv_nsec < second)
unfolding absolute_time
absolute_time-nanoseconds now limit small = (ground arith, ground arith)
