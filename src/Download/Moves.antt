-- ===== src/Download/Moves.antt =====
-- The state machine of the downloads, as the moves that one iteration may make.
use emule_indexer.Common.{ℕ, ◌+◌, ◌≤◌, ◌≡◌, none, some, In}
use emule_indexer.Common.Text.{Str}
use emule_indexer.Common.Dict.{get, put}
use emule_indexer.Download.Rules.{
  DownloadState, queued, downloading, completed, quarantined, failed,
}
use emule_indexer.Download.World.{Download, State}
use emule_indexer.Download.Table.{committed, with_state}

pub data Move : DownloadState → DownloadState → Type 0 where
  starts : Move queued downloading
  completes_queued : Move queued completed
  completes : Move downloading completed
  quarantines : Move completed quarantined
  fails : Move queued failed

-- What was promoted stays so, and what was sent to the verification.
abbrev pub Kept : State → State → Type 0
Kept s s' =
    ((h : Str) → In h s.promoted → In h s'.promoted)
    × ((h : Str) → In h s.verifications → In h s'.verifications)

-- One change of the table: none, a new download that fits under the cap, or a move of a download,
-- to the quarantine only if its file was promoted and its verification asked for.
pub data Step (cap : ℕ) (s s' : State) : Type 0 where
  quiet : s.downloads ≡ s'.downloads → Kept s s' → Step cap s s'
  queues :
      (hash : Str) (row : Download)
      → get hash s.downloads ≡ none
      → row.state ≡ queued
      → committed s.downloads + row.size_bytes ≤ cap
      → put hash row s.downloads ≡ s'.downloads
      → Kept s s'
      → Step cap s s'
  moves :
      (hash : Str) (d : Download) (next : DownloadState)
      → get hash s.downloads ≡ some d
      → Move d.state next
      → (next ≡ quarantined → In hash s'.promoted × In hash s'.verifications)
      → put hash (with_state d next) s.downloads ≡ s'.downloads
      → Kept s s'
      → Step cap s s'

pub data Steps (cap : ℕ) (s : State) : State → Type 0 where
  stop : Steps cap s s
  further : {s' s'' : State} → Steps cap s s' → Step cap s' s'' → Steps cap s s''

pub Steps-trans : {cap : ℕ} {r s t : State} → Steps cap r s → Steps cap s t → Steps cap r t
Steps-trans a stop = a
Steps-trans a (further b step) = further (Steps-trans a b) step

pub one : {cap : ℕ} {s s' : State} → Step cap s s' → Steps cap s s'
one step = further stop step

-- What every change keeps is kept by all of them.
pub Steps_keep :
    (I : State → Type 0) {cap : ℕ} {s s' : State}
    → ((a b : State) → I a → Step cap a b → I b)
    → I s
    → Steps cap s s'
    → I s'
Steps_keep I keep i stop = i
Steps_keep I keep i (further steps step) = keep _ _ (Steps_keep I keep i steps) step
