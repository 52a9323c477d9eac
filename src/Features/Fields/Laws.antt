-- ===== src/Features/Fields/Laws.antt =====
-- The fields of a value that src/NVMeGetFeatures.c takes apart.
use nvmetool_win.Base.{ℕ, ◌+◌, ◌*◌, ◌<◌, ◌^◌, ◌≡◌, arith}
use nvmetool_win.Features.Fields.{queues}

-- The two queue counts make up the whole value of the feature.
pub queues_whole : (v : ℕ) → v < 2 ^ 32 → (queues v).ncqa * 65536 + (queues v).nsqa ≡ v
unfolding queues
queues_whole v h = omega arith
