-- ===== src/LogPages/Endurance.antt =====
-- The report of an endurance group, s_vPrintNVMeEnduranceGroupInformation of
-- src/NVMeEnduranceGroup.c, by its structure NVME_ENDURANCE_GROUP_INFO.
use nvmetool_win.Base.{ℕ, ◌+◌, Bool, List, [], ◌∷◌, ◌++◌, map}
use nvmetool_win.Controller.Fields.{byte, qword, flags}

-- The critical warning with its bits, the spare, its threshold, and the percentage used.
unfoldable pub group_state : List ℕ → ℕ × List (ℕ × Bool) × ℕ × ℕ × ℕ
group_state log =
    (byte log 0, flags (3 ∷ 2 ∷ 0 ∷ []) (byte log 0), byte log 3, byte log 4, byte log 5)

-- The upper and the lower half at an offset.
abbrev pub halves : List ℕ → ℕ → ℕ × ℕ
halves log i = (qword log (i + 8), qword log i)

-- The eight numbers of 16 bytes. The lower half that is printed of the media units written is that of
-- the integrity errors.
unfoldable pub group_numbers_16 : List ℕ → List (ℕ × ℕ)
group_numbers_16 log =
    map (halves log) (32 ∷ 48 ∷ 64 ∷ [])
    ++ (qword log 88, qword log 128) ∷ map (halves log) (96 ∷ 112 ∷ 128 ∷ 144 ∷ [])
