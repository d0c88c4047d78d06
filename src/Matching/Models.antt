-- ===== src/Matching/Models.antt =====
-- models.py; `FileObservation.to_candidate` is of domain/observation.py.
use emule_indexer.Common.{ℕ, Bool, Option, ◌++◌}
use emule_indexer.Common.Text.{Str, codes, decimal, decimal_padded}
use emule_indexer.Matching.Library.{Library}

pub record FileCandidate (lib : Library) : Type 0 where
  pub filename : Str
  pub size_mb : Option lib.Float
  pub duration_sec : Option lib.Float
  pub bitrate_kbps : Option lib.Float

pub record TargetSegment : Type 0 where
  pub season : ℕ
  pub seasonal_number : ℕ
  pub absolute_number : ℕ
  pub segment : Str
  pub title : Str
  pub status : Str
  pub sole_segment : Bool

-- `f"S{season}E{absolute_number:03d}{segment.upper()}"`
unfoldable pub target_id : Library → TargetSegment → Str
target_id lib t =
    codes "S"
    ++ (decimal t.season
        ++ (codes "E" ++ (decimal_padded 3 t.absolute_number ++ lib.upper t.segment)))
