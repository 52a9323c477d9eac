-- ===== src/Scsi/Adapter/Bounds.antt =====
-- The length of a transfer that is printed for an adapter.
use Prim.Native.Nat.{min, max}
use nvmetool_win.Base.{ℕ, ◌-◌, ◌*◌, ◌^◌, ◌≤◌, ◌≡◌, arith}
use nvmetool_win.Scsi.Adapter.{page_size, true_maximum_transfer}

-- With at most 2 ^ 20 physical pages, the length that is printed is the smaller of the maximum of the
-- adapter and of one page less than it has, and at least a page.
pub true_maximum_transfer_lem :
    (pages maximum : ℕ)
    → pages ≤ 2 ^ 20
    → true_maximum_transfer pages maximum ≡ max page_size (min maximum ((pages - 1) * page_size))
unfolding true_maximum_transfer
true_maximum_transfer_lem pages maximum le = ground arith
