-- ===== src/Download/Links.antt =====
-- The last step of an iteration: a download fails only from the queue.
use emule_indexer.Common.{
  ℕ, ◌≡◌, refl, sym, ap, inl, inr, Bool-cases, Option, none, some, List, [], ◌∷◌, map, In, Result,
}
use mathlib.Core.Path.{subst}
use emule_indexer.Common.Members.{Nodup}
use emule_indexer.Common.Text.{Str, str_eq, str_eq_iff}
use emule_indexer.Common.Dict.{Dict, get, put, get-put}
use emule_indexer.Matching.Ed2kLink.{build_ed2k_link}
use emule_indexer.Download.Rules.{
  DownloadState, queued, downloading, completed, quarantined, failed,
}
use emule_indexer.Download.World.{
  Download, LoopError, LinkReply, accepted, rejected, unreachable, State, World, pure, gets,
}
use emule_indexer.Download.Table.{with_state, set_state, active_states, row_state}
use emule_indexer.Download.Cycle.{
  last_observation, reply, send_link, link_observed, link_entry, link_each, add_links,
}
use emule_indexer.Download.Moves.{fails, quiet, moves, stop, one}
use emule_indexer.Download.Runs.{Runs, Always, OnReturn, >>=-Runs, calling-Runs, Kept-same}
use emule_indexer.Download.Committed.{keys}

abbrev pub Says : Dict Download → Str → DownloadState → Type 0
Says rows h st = (d : Download) × (get h rows ≡ some d) × (d.state ≡ st)

-- The table says of these downloads, each under its own hash, what the list does.
abbrev Pending : Dict DownloadState → State → Type 0
Pending items s =
    ((h : Str) (st : DownloadState) → In (h, st) items → Says s.downloads h st) × Nodup (keys items)

In-keys :
    (h : Str) (st : DownloadState) (items : Dict DownloadState)
    → In (h, st) items
    → In h (keys items)
In-keys h st [] m = m
In-keys h st (item ∷ items) (inl e) = inl (ap (λ t. t.0) e)
In-keys h st (item ∷ items) (inr m) = inr (In-keys h st items m)

Pending-put :
    (items : Dict DownloadState) (h : Str) (row : Download) (rows : Dict Download)
    → ¬ In h (keys items)
    → ((k : Str) (st : DownloadState) → In (k, st) items → Says rows k st)
    → (k : Str) (st : DownloadState) → In (k, st) items
    → Says (put h row rows) k st
Pending-put items h row rows new says k st m = elim (Bool-cases (str_eq h k)) [
  | inl same ↦
      absurd (
        new (subst (λ x. In x (keys items)) (sym ((str_eq_iff h k).0 same)) (In-keys k st items m)))
  | inr other ↦ let (d, e, f) = says k st m in (d, rw (get-put h k row rows, other) e, f)
]

row_keys : (rows : Dict Download) (x : Str) → In x (keys (map row_state rows)) → In x (keys rows)
row_keys [] x m = m
row_keys (row ∷ rows) x (inl e) = inl e
row_keys (row ∷ rows) x (inr m) = inr (row_keys rows x m)

row-Nodup : (rows : Dict Download) → Nodup (keys rows) → Nodup (keys (map row_state rows))
row-Nodup [] n = tt
row-Nodup (row ∷ rows) (new, n) = (λ m. new (row_keys rows row.0 m), row-Nodup rows n)

-- `active_states` reads the table.
pub row-Says :
    (rows : Dict Download) (h : Str) (st : DownloadState)
    → Nodup (keys rows)
    → In (h, st) (map row_state rows)
    → Says rows h st
unfolding get
row-Says [] h st n m = absurd m
row-Says ((k, d) ∷ rows) h st n (inl e) =
    (d, rw ((str_eq_iff k h).1 (sym (ap (λ t. t.0) e))), sym (ap (λ t. t.1) e))
row-Says ((k, d) ∷ rows) h st (new, n) (inr m) = elim (Bool-cases (str_eq k h)) [
  | inl same ↦ absurd (
      new (
        subst (λ x. In x (keys rows)) (sym ((str_eq_iff k h).0 same))
          (row_keys rows h (In-keys h st (map row_state rows) m))))
  | inr other ↦ let (x, e, f) = row-Says rows h st n m in (x, rw other e, f)
]

module _ (world : World) (targets : List (Str × Str)) (cap : ℕ) where
  -- The first of the list, with the rest pending.
  abbrev Next : Str → DownloadState → Dict DownloadState → State → Type 0
  Next h st items s = Says s.downloads h st × (Pending items s × (¬ In h (keys items)))

  fail-Runs :
      (h : Str) (items : Dict DownloadState)
      → Runs cap (Next h queued items) (set_state world h failed) (Always (Pending items))
  unfolding set_state
  fail-Runs h items s ((d, known, is), ((says, once), new)) =
      elim (Bool-cases (world.repository_fails s.repository_calls)) [
        | inl broken ↦ rw broken (one (quiet refl (Kept-same s)), (says, once))
        | inr called ↦
            rw (called, known)
              (
                one (moves h d failed known (rw is fails) (λ no. cc) refl (Kept-same s)),
                (Pending-put items h (with_state d failed) s.downloads new says, once),
              )
      ]

  reply-Runs :
      (h link : Str) (items : Dict DownloadState) (r : LinkReply)
      → Runs cap (Next h queued items) (reply world targets cap h link r) (Always (Pending items))
  reply-Runs h link items accepted = λ s p. (one (quiet refl (Kept-same s)), p.1.0)
  reply-Runs h link items rejected = fail-Runs h items
  reply-Runs h link items unreachable = λ s p. (stop, p.1.0)

  send_link-Runs :
      (h : Str) (items : Dict DownloadState) (link : Option Str)
      → Runs cap (Next h queued items) (send_link world targets cap h link) (Always (Pending items))
  send_link-Runs h items none = λ s p. (stop, p.1.0)
  send_link-Runs h items (some link) = reply-Runs h link items (world.add_link link)

  link_observed-Runs :
      (h : Str) (items : Dict DownloadState) (seen : Option (Str × ℕ))
      → Runs cap
          (Next h queued items)
          (link_observed world targets cap h seen)
          (Always (Pending items))
  link_observed-Runs h items none = λ s p. (stop, p.1.0)
  link_observed-Runs h items (some (filename, size)) =
      send_link-Runs h items (build_ed2k_link filename size h)

  link_entry-Runs :
      (h : Str) (st : DownloadState) (items : Dict DownloadState)
      → Runs cap (Next h st items) (link_entry world targets cap h st) (Always (Pending items))
  link_entry-Runs h downloading items = λ s p. (stop, p.1.0)
  link_entry-Runs h completed items = λ s p. (stop, p.1.0)
  link_entry-Runs h quarantined items = λ s p. (stop, p.1.0)
  link_entry-Runs h failed items = λ s p. (stop, p.1.0)
  link_entry-Runs h queued items =
      >>=-Runs cap (Always (Next h queued items)) (Always (Pending items))
        (last_observation world targets cap h) (λ seen. link_observed world targets cap h seen)
        (calling-Runs cap world (Always (Next h queued items)) (pure (world.last_observation h))
          (λ s p. p) (λ s p. (stop, p)))
        (link_observed-Runs h items) (λ e t p. p.1.0)

  abbrev Done : Result LoopError (Unit {0}) → State → Type 0
  Done = Always (λ s. Unit {0})

  link_each-Runs :
      (items : Dict DownloadState)
      → Runs cap (Pending items) (link_each world targets cap items) Done
  unfolding link_each
  link_each-Runs [] = λ s p. (stop, tt)
  link_each-Runs ((h, st) ∷ items) = λ s (says, (new, once)).
      >>=-Runs cap (Always (Pending items)) Done (link_entry world targets cap h st)
        (λ _. link_each world targets cap items) (link_entry-Runs h st items)
        (λ _. link_each-Runs items) (λ e t _. tt) s
        (says h st (inl refl), ((λ k st' m. says k st' (inr m), once), new))

  pub add_links-Runs : Runs cap (λ s. Nodup (keys s.downloads)) (add_links world targets cap) Done
  unfolding add_links active_states
  add_links-Runs =
      >>=-Runs cap (OnReturn (λ items. Pending items)) Done (active_states world)
        (λ items. link_each world targets cap items)
        (calling-Runs cap world (OnReturn (λ items. Pending items))
          (gets (λ s. map row_state s.downloads)) (λ s n. tt)
          (λ s n. (stop, ((λ h st m. row-Says s.downloads h st n m), row-Nodup s.downloads n))))
        link_each-Runs (λ e t _. tt)
