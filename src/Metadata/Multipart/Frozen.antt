-- ===== src/Metadata/Multipart/Frozen.antt =====
-- While an upload is claimed: the steps that other requests take until its claim is released.
use fbs_core.Base.{ℕ, Bytes, none, ◌≡◌, ◌⊎◌}
use fbs_core.Metadata.Model.{Tables}
use fbs_core.Metadata.Multipart.{find_part}
use fbs_core.Metadata.Multipart.Steps.{Steps}

-- The parts of `id` are as they were, or are all gone with it.
abbrev pub Kept : Bytes → Tables → Tables → Type 0
Kept id t t' =
    ((n : ℕ) → find_part id n t'.parts ≡ find_part id n t.parts)
    ⊎ ((n : ℕ) → find_part id n t'.parts ≡ none)
