-- ===== src/Download/Committed.antt =====
-- What the moves do to the committed bytes and to the keys of the table.
use emule_indexer.Common.{
  ℕ, ◌+◌, ◌≤◌, ◌≡◌, sym, ◌⊎◌, inl, inr, Bool-cases, none, some, some-injective, List, [], ◌∷◌, map,
  In, if◌then◌else◌, arith,
}
use mathlib.Core.Path.{subst}
use emule_indexer.Common.Members.{Nodup}
use emule_indexer.Common.Text.{Str, str_eq, str_eq_iff}
use emule_indexer.Common.Dict.{Dict, get, put}
use emule_indexer.Download.Rules.{DownloadState, is_terminal}
use emule_indexer.Download.World.{Download, State}
use emule_indexer.Download.Table.{committed, with_state}
use emule_indexer.Download.Moves.{
  Move, starts, completes_queued, completes, quarantines, fails, Step, quiet, queues, moves,
}

abbrev pub counted : Download → ℕ
counted d = if is_terminal d.state then 0 else d.size_bytes

pub committed-put_new :
    (h : Str) (row : Download) (rows : Dict Download)
    → get h rows ≡ none
    → committed (put h row rows) ≡ committed rows + counted row
unfolding committed get put
committed-put_new h row [] e = omega arith
committed-put_new h row ((k, d) ∷ rows) e = elim (Bool-cases (str_eq k h)) [
  | inl same ↦ cc (rw same at e)
  | inr other ↦
      let below = committed-put_new h row rows (rw other at e) in rw (other, below) (omega arith)
]

counted_le :
    (from next : DownloadState) (size : ℕ)
    → Move from next
    → (if is_terminal next then 0 else size) ≤ (if is_terminal from then 0 else size)
unfolding is_terminal
counted_le from next size starts = omega arith
counted_le from next size completes_queued = omega arith
counted_le from next size completes = omega arith
counted_le from next size quarantines = omega arith
counted_le from next size fails = omega arith

counted-Move :
    (d : Download) (next : DownloadState)
    → Move d.state next
    → counted (with_state d next) ≤ counted d
counted-Move d next mv = counted_le d.state next d.size_bytes mv

committed-put_move :
    (h : Str) (d row : Download) (rows : Dict Download)
    → get h rows ≡ some d
    → counted row ≤ counted d
    → committed (put h row rows) ≤ committed rows
unfolding committed get put
committed-put_move h d row [] e l = cc
committed-put_move h d row ((k, x) ∷ rows) e l = elim (Bool-cases (str_eq k h)) [
  | inl same ↦
      let found : x ≡ d = some-injective (rw same at e) in
      let less : counted row ≤ counted x = rw found l in rw same (omega (arith, less))
  | inr other ↦
      let below = committed-put_move h d row rows (rw other at e) l in
      rw other (omega (arith, below))
]

abbrev pub keys : {V : Type 0} → Dict V → List Str
keys rows = map (λ t. t.0) rows

keys-put :
    {V : Type 0} (h x : Str) (v : V) (rows : Dict V)
    → In x (keys (put h v rows))
    → (h ≡ x) ⊎ In x (keys rows)
unfolding put
keys-put h x v [] (inl e) = inl (sym e)
keys-put h x v [] (inr m) = absurd m
keys-put h x v ((k, w) ∷ rows) m = elim (Bool-cases (str_eq k h)) [
  | inl same ↦ elim (rw same at m) [ inl e ↦ inl (sym e) | inr below ↦ inr (inr below) ]
  | inr other ↦ elim (rw other at m) [
    | inl e ↦ inr (inl e)
    | inr below ↦ elim (keys-put h x v rows below) [ inl e ↦ inl e | inr there ↦ inr (inr there) ]
  ]
]

pub put-Nodup :
    {V : Type 0} (h : Str) (v : V) (rows : Dict V) → Nodup (keys rows) → Nodup (keys (put h v rows))
unfolding put
put-Nodup h v [] n = (λ m. m, tt)
put-Nodup h v ((k, w) ∷ rows) (new, n) = elim (Bool-cases (str_eq k h)) [
  | inl same ↦ rw same (subst (λ y. ¬ In y (keys rows)) ((str_eq_iff k h).0 same) new, n)
  | inr other ↦ rw other (
    λ m. elim (keys-put h k v rows m) [
      | inl e ↦ cc ((str_eq_iff k h).1 (sym e), other)
      | inr there ↦ new there
    ],
    put-Nodup h v rows n,
  )
]

-- The changes keep the committed bytes under the cap.
pub Step-committed :
    (cap : ℕ) (s s' : State)
    → committed s.downloads ≤ cap
    → Step cap s s'
    → committed s'.downloads ≤ cap
unfolding is_terminal
Step-committed cap s s' l (quiet e kept) = subst (λ r. committed r ≤ cap) e l
Step-committed cap s s' l (queues h row absent is fits e kept) =
    subst (λ r. committed r ≤ cap) e
      (let sum = committed-put_new h row s.downloads absent in
        let size : counted row ≡ row.size_bytes = rw is in omega (arith, sum, size, fits))
Step-committed cap s s' l (moves h d next known mv sent e kept) =
    subst (λ r. committed r ≤ cap) e
      (let less =
          committed-put_move h d (with_state d next) s.downloads known (counted-Move d next mv) in
        omega (arith, less, l))

pub Step-Nodup :
    (cap : ℕ) (s s' : State) → Nodup (keys s.downloads) → Step cap s s' → Nodup (keys s'.downloads)
Step-Nodup cap s s' n (quiet e kept) = subst (λ r. Nodup (keys r)) e n
Step-Nodup cap s s' n (queues h row absent is fits e kept) =
    subst (λ r. Nodup (keys r)) e (put-Nodup h row s.downloads n)
Step-Nodup cap s s' n (moves h d next known mv sent e kept) =
    subst (λ r. Nodup (keys r)) e (put-Nodup h (with_state d next) s.downloads n)
