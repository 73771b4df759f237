-- ===== src/Backups/Sizes.antt =====
-- How near the size that is written is to the size.
use veckomenyn.Base.{ℕ, ◌+◌, ◌*◌, ◌≤◌, ◌<◌, ◌≡◌, refl, true, false, show, ltb, ◌++◌, text, arith}
use veckomenyn.Backups.{scaled, fixed_one, kib, mib, gib, format_size}

-- A size of at least a KiB and less than a MiB is written in tenths of a KiB, and differs from what is
-- written by half a tenth at most; from a MiB on, and below a GiB, likewise in tenths of a MiB.
pub format_size-near :
    (bytes : ℕ)
    → kib ≤ bytes
    → bytes < mib
    → (tenths : ℕ) × (format_size bytes ≡ fixed_one tenths ++ text " KB")
      × (2 * kib * tenths ≤ 20 * bytes + kib)
      × (20 * bytes < 2 * kib * tenths + kib)
unfolding format_size
format_size-near bytes h k = (scaled 10 bytes kib, ground arith, omega arith, omega arith)

pub format_size-near_mib :
    (bytes : ℕ)
    → mib ≤ bytes
    → bytes < gib
    → (tenths : ℕ) × (format_size bytes ≡ fixed_one tenths ++ text " MB")
      × (2 * mib * tenths ≤ 20 * bytes + mib)
      × (20 * bytes < 2 * mib * tenths + mib)
unfolding format_size
format_size-near_mib bytes h k = (scaled 10 bytes mib, ground arith, omega arith, omega arith)

-- The unit is chosen before the rounding: the last sizes below a MiB are written as 1024.0 KB.
pub format_size-last :
    (bytes : ℕ) → 1048525 ≤ bytes → bytes < mib → format_size bytes ≡ text "1024.0 KB"
unfolding format_size show
format_size-last bytes h k =
    let rounded : scaled 10 bytes kib ≡ 10240 = omega arith in
    let large : ltb bytes kib ≡ false = ground arith in
    let small : ltb bytes mib ≡ true = ground arith in rw large (rw small (rw rounded refl))
