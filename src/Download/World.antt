-- ===== src/Download/World.antt =====
-- The state of one iteration of the download loop, what answers it from outside, and actions that
-- read, write and raise.
use emule_indexer.Common.{ℕ, Bool, Option, List, Result, ok, err}
use emule_indexer.Common.Text.{Str}
use emule_indexer.Common.Dict.{Dict}
use emule_indexer.Download.Rules.{DownloadState}

-- A row of the table `downloads`, under its key, the hash. Its two time stamps are left out: the
-- loop does not read them.
pub record Download : Type 0 where
  pub target_id : Str
  pub state : DownloadState
  pub size_bytes : ℕ

pub data Event : Type 0 where
  download_queued : Str → Event
  download_completed : Str → Str → Event
  promotion_failed : Str → Event

-- `RepositoryError`, `MuleUnreachableError`, `MuleSearchFailedError`, and the error of a name that
-- UTF-8 does not encode.
pub data LoopError : Type 0 where
  repository_error mule_unreachable mule_search_failed unicode_encode_error : LoopError

pub data LinkReply : Type 0 where
  accepted rejected unreachable : LinkReply

pub record State : Type 0 where
  pub downloads : Dict Download
  -- the hashes that were moved to the quarantine, and those whose verification was asked for
  pub promoted : List Str
  pub verifications : List Str
  pub links : List Str
  pub events : List Event
  -- the variable `states`
  pub states : Dict DownloadState
  -- how often a repository was called
  pub repository_calls : ℕ

-- What is outside: amuled, the file system and the catalogue, and which calls of a repository fail.
pub record World : Type 0 where
  pub repository_fails : ℕ → Bool
  -- `download_queue()` by its hashes and `shared_files()` by hash and name; `none` is a dead stream
  pub download_queue : Option (List Str)
  pub shared_files : Option (List (Str × Str))
  -- does moving this name of the staging folder under this hash work?
  pub promotes : Str → Str → Bool
  -- hash and target
  pub download_decisions : List (Str × Str)
  -- name and size
  pub last_observation : Str → Option (Str × ℕ)
  pub add_link : Str → LinkReply

abbrev pub Exec : Type 0 → Type 0
Exec A = State → Result LoopError A × State

abbrev pub continue_with :
    {A B : Type 0} → (A → Exec B) → Result LoopError A × State → Result LoopError B × State
continue_with next (ok a, s) = next a s
continue_with next (err e, s) = (err e, s)

abbrev pub ◌>>=◌ : {A B : Type 0} → Exec A → (A → Exec B) → Exec B
(m >>= next) s = continue_with next (m s)

abbrev pub ◌>>◌ : {A B : Type 0} → Exec A → Exec B → Exec B
m >> next = m >>= λ _. next

infixl 5 ◌>>=◌ ◌>>◌
abbrev pub pure : {A : Type 0} → A → Exec A
pure a s = (ok a, s)

abbrev pub raise : {A : Type 0} → LoopError → Exec A
raise e s = (err e, s)

abbrev pub gets : {A : Type 0} → (State → A) → Exec A
gets f s = (ok (f s), s)

abbrev pub modify : (State → State) → Exec (Unit {0})
modify f s = (ok tt, f s)

abbrev pub handled :
    {A : Type 0} → (LoopError → Exec A) → Result LoopError A × State → Result LoopError A × State
handled handler (ok a, s) = (ok a, s)
handled handler (err e, s) = handler e s

-- `try: m` with a handler for what it raises.
abbrev pub catch : {A : Type 0} → Exec A → (LoopError → Exec A) → Exec A
catch m handler s = handled handler (m s)
