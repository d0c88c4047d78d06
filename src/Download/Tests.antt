-- ===== src/Download/Tests.antt =====
-- One iteration over three downloads and two candidates, of which one fits under the cap.
use emule_indexer.Common.{
  ◌≡◌, ◌≢◌, ◌≤◌, refl, sym, ◌∙◌, true, false, none, some, ◌↔◌, List, [], ◌∷◌, inl, inr, arith,
}
use emule_indexer.Common.Text.{Str, codes, str_eq, str_eq_iff, decimal, split_on, Free}
use emule_indexer.Common.Dict.{get, put, get-All}
use emule_indexer.Matching.Ed2kLink.{build_ed2k_link, quote, HasSurrogate, split_on-build_ed2k_link}
use emule_indexer.Download.Rules.{
  queued, downloading, quarantined, failed, download_policy, is_terminal,
}
use emule_indexer.Download.Staging.{safe_basename, safe_basename-some, basename}
use emule_indexer.Download.World.{Download, State, World, rejected}
use emule_indexer.Download.Table.{
  committed, active_states, set_state, enqueue_verification, get_target_id, committed_bytes,
  is_downloaded, record_queued,
}
use emule_indexer.Download.Cycle.{run_download_cycle, target_status}
use emule_indexer.Download.Moves.{Steps}
use emule_indexer.Download.Iteration.{IsTable, run_download_cycle-Steps}
use emule_indexer.Download.Safety.{
  IsSent, Advanced, committed-run_download_cycle, run_download_cycle-Advanced,
  run_download_cycle-IsSent,
}

abbrev row : Str → Download
row hash = record { target_id = codes "t"; state = queued; size_bytes = 10 }

abbrev start : State
start = record {
  downloads = (codes "a", row (codes "a")) ∷ (codes "b", row (codes "b")) ∷ [];
  promoted = [];
  verifications = [];
  links = [];
  events = [];
  states = [];
  repository_calls = 0;
}

-- amuled pulls `a`, shares `b`, and refuses the link of `c`.
abbrev world : World
world = record {
  repository_fails = λ n. false;
  download_queue = some (codes "a" ∷ []);
  shared_files = some ((codes "b", codes "x/b.avi") ∷ []);
  promotes = λ name hash. true;
  download_decisions = (codes "c", codes "t") ∷ (codes "d", codes "t") ∷ [];
  last_observation = λ hash. some (codes "f", 15);
  add_link = λ link. rejected;
}

abbrev targets : List (Str × Str)
targets = (codes "t", codes "wanted") ∷ []

hashes_differ : str_eq (codes "a") (codes "b") ≡ false
unfolding str_eq
hashes_differ = refl

true-ne-false : true ≢ false
true-ne-false e = cc

start-IsTable : IsTable start
start-IsTable = (
  λ m. elim m [
    | inl e ↦ true-ne-false (sym ((str_eq_iff (codes "a") (codes "b")).1 e) ∙ hashes_differ)
    | inr x ↦ elim x [ ]
  ],
  (λ m. m, tt),
)

start-IsSent : IsSent start
start-IsSent h d there is =
    let waiting : d.state ≡ queued =
      get-All (λ (t : Str × Download). t.1.state ≡ queued) h d start.downloads (refl, (refl, tt))
        there in
    cc (waiting, is)

run_download_cycle-Steps_example :
    Steps 30 start (run_download_cycle world targets 30 start)
    × IsTable (run_download_cycle world targets 30 start)
run_download_cycle-Steps_example = run_download_cycle-Steps world targets 30 start start-IsTable

committed_start : committed start.downloads ≤ 30
unfolding committed is_terminal
committed_start = omega arith

committed-run_download_cycle_example :
    committed (run_download_cycle world targets 30 start).downloads ≤ 30
committed-run_download_cycle_example =
    committed-run_download_cycle world targets 30 start start-IsTable committed_start

get-start : get (codes "a") start.downloads ≡ some (row (codes "a"))
unfolding get str_eq
get-start = refl

run_download_cycle-Advanced_example :
    Advanced (codes "a") (row (codes "a")) (run_download_cycle world targets 30 start)
run_download_cycle-Advanced_example =
    run_download_cycle-Advanced world targets 30 start (codes "a") (row (codes "a")) start-IsTable
      get-start

run_download_cycle-IsSent_example : IsSent (run_download_cycle world targets 30 start)
run_download_cycle-IsSent_example =
    run_download_cycle-IsSent world targets 30 start start-IsTable start-IsSent

-- `c` fits and its link is refused, `d` does not fit.
after_iteration :
    (run_download_cycle world targets 30 start).downloads
    ≡ (codes "a", record { target_id = codes "t"; state = downloading; size_bytes = 10 })
      ∷ (codes "b", record { target_id = codes "t"; state = quarantined; size_bytes = 10 })
      ∷ (codes "c", record { target_id = codes "t"; state = failed; size_bytes = 15 })
      ∷ []
unfolding run_download_cycle get put str_eq committed is_terminal active_states set_state
    safe_basename split_on enqueue_verification get_target_id committed_bytes is_downloaded
    download_policy target_status record_queued build_ed2k_link
after_iteration = refl

safe_traversal : safe_basename (codes "../../etc/x.avi") ≡ some (codes "x.avi")
unfolding safe_basename basename split_on str_eq
safe_traversal = refl

safe_basename-some_example :
    Free 0x2f (codes "x.avi")
    × ((codes "x.avi" ≢ []) × ((codes "x.avi" ≢ codes ".") × (codes "x.avi" ≢ codes "..")))
safe_basename-some_example =
    safe_basename-some (codes "../../etc/x.avi") (codes "x.avi") safe_traversal

split_on-build_ed2k_link_example :
    ((link : Str)
      → build_ed2k_link (codes "a|b") 7 (codes "0f") ≡ some link
      → (safe_name : Str) × (quote (codes "a|b") ≡ some safe_name)
        × (split_on 0x7c link
            ≡ codes "ed2k://" ∷ codes "file" ∷ safe_name ∷ decimal 7 ∷ codes "0f" ∷ codes "/" ∷ []))
    × ((build_ed2k_link (codes "a|b") 7 (codes "0f") ≡ none) ↔ HasSurrogate (codes "a|b"))
split_on-build_ed2k_link_example =
    split_on-build_ed2k_link (codes "a|b") 7 (codes "0f") (ground arith) (ground arith)

quote_separator : quote (codes "a|b") ≡ some (codes "a%7Cb")
unfolding quote
quote_separator = refl

quote_surrogate : quote (0x61 ∷ 0xd800 ∷ []) ≡ none
unfolding quote
quote_surrogate = refl
