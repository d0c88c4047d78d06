-- ===== src/Download/Rules.antt =====
-- policy.py and states.py: what becomes of a candidate, and the states of a download. Tiers and
-- statuses are strings, as in the code.
use emule_indexer.Common.{ℕ, ◌+◌, ◌≤◌, ◌≡◌, ◌↔◌, Bool, true, false, not, ltb, arith, if◌then◌else◌}
use emule_indexer.Common.Text.{Str, codes, str_eq, str_eq_iff}

pub data DownloadState : Type 0 where
  queued downloading completed quarantined failed : DownloadState

-- `_TERMINAL_STATES`
unfoldable pub is_terminal : DownloadState → Bool
is_terminal queued = false
is_terminal downloading = false
is_terminal completed = true
is_terminal quarantined = true
is_terminal failed = true

pub data DownloadVerdict : Type 0 where
  download skip_complete skip_dedup skip_disk_cap : DownloadVerdict

unfoldable pub download_policy : Str → Str → Bool → ℕ → ℕ → ℕ → DownloadVerdict
download_policy tier target_status already_downloaded committed_bytes file_size disk_cap =
    if not (str_eq tier (codes "download"))
    then skip_complete
    else if str_eq target_status (codes "complete")
    then skip_complete
    else if already_downloaded
    then skip_dedup
    else if ltb disk_cap (committed_bytes + file_size)
    then skip_disk_cap
    else download

-- A file is downloaded exactly if its tier is `download`, its target is not complete, it was not
-- downloaded before, and it fits under the cap with what is committed.
pub download_policy_iff :
    (tier target_status : Str) (already : Bool) (committed file_size cap : ℕ)
    → (download_policy tier target_status already committed file_size cap ≡ download) ↔ (
        (tier ≡ codes "download")
        × ((¬ (target_status ≡ codes "complete"))
            × ((already ≡ false) × (committed + file_size ≤ cap))))
unfolding download_policy
download_policy_iff tier status already committed size cap =
    ground (arith, str_eq_iff tier (codes "download"), str_eq_iff status (codes "complete"))
