-- ===== src/Sync/Transfer/Laws.antt =====
-- The deadline of a transfer.
use copywraith.Common.{◌≡◌, ◌⊎◌, ℕ, ◌*◌, ◌≤◌, ◌<◌, arith}
use copywraith.Sync.Transfer.{transfer_timeout}

-- Whatever size a server reports, a deadline is between 30 and 3600 seconds; a larger transfer has
-- no shorter deadline; and below the cap the deadline leaves time for the payload at 128 KiB a second.
pub transfer_timeout_bounds :
    (m n : ℕ)
    → m ≤ n
    → (30 ≤ transfer_timeout m)
      × (transfer_timeout n ≤ 3600)
      × (transfer_timeout m ≤ transfer_timeout n)
      × ((transfer_timeout n ≡ 3600) ⊎ (n < transfer_timeout n * (128 * 1024)))
unfolding transfer_timeout
transfer_timeout_bounds m n h = (omega arith, omega arith, omega arith, ground arith)
