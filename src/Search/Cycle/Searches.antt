-- ===== src/Search/Cycle/Searches.antt =====
-- run_search_cycle.py: every keyword of the configuration is given to a worker on every channel.
use emule_indexer.Common.{
  ℕ, ◌+◌, ◌≡◌, ◌≢◌, refl, sym, inl, inr, Bool, true, false, ◌&&◌, Option, some, List, [], ◌∷◌, In,
  Bool-cases, if◌then◌else◌, arith,
}
use emule_indexer.Common.Members.{Nodup}
use mathlib.Core.Path.{subst}
use emule_indexer.Common.Text.{Str, str_eq, str_eq_iff}
use emule_indexer.Domain.Keywords.{generate_keywords, generate_keywords_iff, texts_of}
use emule_indexer.Search.Tasks.{SearchChannel, global, kad, SearchTask, new_task, enqueue}
use emule_indexer.Search.Counting.{one, queued, were_run, given_up}
use emule_indexer.Search.Joined.{drain-joined}
use emule_indexer.Search.Cycle.{cycle_seed, shuffle_for_cycle, search_all}

abbrev same_channel : SearchChannel → SearchChannel → Bool
same_channel global global = true
same_channel global kad = false
same_channel kad global = false
same_channel kad kad = true

-- The tasks of a keyword and a channel.
abbrev pub is_task : Str → SearchChannel → Str → SearchChannel → Bool
is_task text channel k c = str_eq text k && same_channel channel c

abbrev pub count : Str → List Str → ℕ
count text [] = 0
count text (x ∷ xs) = (if str_eq text x then 1 else 0) + count text xs

count-Nodup : (text : Str) (xs : List Str) → ¬ In text xs → count text xs ≡ 0
count-Nodup text [] h = refl
count-Nodup text (x ∷ xs) h = elim (Bool-cases (str_eq text x)) [
  | inl same ↦ absurd (h (inl ((str_eq_iff text x).0 same)))
  | inr other ↦ rw other (omega (arith, count-Nodup text xs (λ m. h (inr m))))
]

count-In : (text : Str) (xs : List Str) → Nodup xs → In text xs → count text xs ≡ 1
count-In text [] n m = absurd m
count-In text (x ∷ xs) (new, n) (inl e) =
    let none_left = count-Nodup text xs (subst (λ y. ¬ In y xs) (sym e) new) in
    rw ((str_eq_iff text x).1 e) (omega (arith, none_left))
count-In text (x ∷ xs) (new, n) (inr m) = elim (Bool-cases (str_eq text x)) [
  | inl same ↦ absurd (new (subst (λ y. In y xs) ((str_eq_iff text x).0 same) m))
  | inr other ↦ rw other (omega (arith, count-In text xs n m))
]

module _ (text : Str) where
  one-new_task :
      (channel : SearchChannel) (x : Str)
      → one (is_task text channel) (new_task x kad) + one (is_task text channel) (new_task x global)
        ≡ (if str_eq text x then 1 else 0)
  one-new_task global x = elim (Bool-cases (str_eq text x)) [ inl e ↦ rw e | inr e ↦ rw e ]
  one-new_task kad x = elim (Bool-cases (str_eq text x)) [ inl e ↦ rw e | inr e ↦ rw e ]

  queued-enqueue :
      (channel : SearchChannel) (texts : List Str) (queue : List (Option SearchTask))
      → queued (is_task text channel) (enqueue texts queue)
        ≡ count text texts + queued (is_task text channel) queue
  unfolding enqueue
  queued-enqueue channel [] queue = omega arith
  queued-enqueue channel (x ∷ xs) queue = omega (
    arith,
    queued-enqueue channel xs (some (new_task x kad) ∷ some (new_task x global) ∷ queue),
    one-new_task channel x,
  )

-- When `join` returns, each keyword of the configuration that is not empty was given to run_task on
-- each channel, or given up, exactly once, if the shuffle keeps how often a text stands in a list.
pub search_all-once :
    (shuffled : Str → List Str → List Str) (node_id : Str) (cycle_index : ℕ)
    (keywords workers : List Str) (schedule : List (ℕ × Bool)) (text : Str)
    (channel : SearchChannel)
    → ((seed : Str) (items : List Str) → count text (shuffled seed items) ≡ count text items)
    → In text keywords
    → text ≢ []
    → (search_all shuffled node_id cycle_index keywords workers schedule).shelf.unfinished ≡ 0
    → were_run
          (is_task text channel)
          (search_all shuffled node_id cycle_index keywords workers schedule).shelf.ran
        + given_up
            (is_task text channel)
            (search_all shuffled node_id cycle_index keywords workers schedule).shelf.dropped
      ≡ 1
unfolding search_all shuffle_for_cycle
search_all-once shuffled node_id cycle_index keywords workers schedule text channel keeps m proper
      joined =
    let (once, members) = generate_keywords_iff keywords in
    let texts = texts_of (generate_keywords keywords) in
    let ordered = shuffled (cycle_seed node_id cycle_index) texts in
    omega (
      arith,
      drain-joined (is_task text channel) workers (enqueue ordered []) schedule joined,
      queued-enqueue text channel ordered [],
      keeps (cycle_seed node_id cycle_index) texts,
      count-In text texts once ((members text).1 (m, proper)),
    )
