-- ===== src/Domain/Buckets.antt =====
-- retention/buckets.py: the observations of one file on one day become one bucket.
use emule_indexer.Common.{
  ℕ, ◌+◌, ◌≡◌, refl, sym, ◌∙◌, inl, inr, Bool, ◌&&◌, Bool-cases, List, [], ◌∷◌, map, length, take,
  if◌then◌else◌, ltb, arith,
}
use emule_indexer.Common.Text.{Str, str_eq, str_lt}
use emule_indexer.Domain.Sets.{json_sorted_set}

pub record ObservationRow : Type 0 where
  pub ed2k_hash : Str
  pub node_id : Str
  pub filename : Str
  pub source_count : ℕ
  pub complete_source_count : ℕ
  pub observed_at : Str

pub record ObservationBucket : Type 0 where
  pub ed2k_hash : Str
  pub bucket : Str
  pub filenames : Str
  pub node_ids : Str
  pub observation_count : ℕ
  pub first_observed_at : Str
  pub last_observed_at : Str
  pub source_count_min : ℕ
  pub source_count_max : ℕ
  pub source_count_sum : ℕ
  pub complete_source_count_min : ℕ
  pub complete_source_count_max : ℕ
  pub complete_source_count_sum : ℕ

-- `observed_at[:10]`
abbrev day : ObservationRow → Str
day row = take 10 row.observed_at

abbrev same_key : ObservationRow → ObservationRow → Bool
same_key a b = str_eq a.ed2k_hash b.ed2k_hash && str_eq (day a) (day b)

-- A group: its first row and the others.
abbrev pub Group : Type 0
Group = ObservationRow × List ObservationRow

abbrev join_group : ObservationRow → List Group → List Group
join_group row [] = (row, []) ∷ []
join_group row ((first, others) ∷ groups) =
    if same_key row first
    then (row, first ∷ others) ∷ groups
    else (row, []) ∷ ((first, others) ∷ groups)

-- `groupby`: the longest runs of rows with one key.
unfoldable pub group_rows : List ObservationRow → List Group
group_rows [] = []
group_rows (row ∷ rows) = join_group row (group_rows rows)

abbrev pub sum : List ℕ → ℕ
sum [] = 0
sum (n ∷ ns) = n + sum ns

-- Python's `min` and `max` over numbers and over strings, of a list with a first element.
abbrev pub min_of : ℕ → List ℕ → ℕ
min_of m [] = m
min_of m (n ∷ ns) = if ltb n m then min_of n ns else min_of m ns

abbrev pub max_of : ℕ → List ℕ → ℕ
max_of m [] = m
max_of m (n ∷ ns) = if ltb m n then max_of n ns else max_of m ns

abbrev first_of : Str → List Str → Str
first_of m [] = m
first_of m (n ∷ ns) = if str_lt n m then first_of n ns else first_of m ns

abbrev last_of : Str → List Str → Str
last_of m [] = m
last_of m (n ∷ ns) = if str_lt m n then last_of n ns else last_of m ns

module _ (dumps : List Str → Str) where
  -- The body of the loop.
  unfoldable pub bucket_of : Group → ObservationBucket
  unfolding json_sorted_set
  bucket_of (row, rows) = record {
    ed2k_hash = row.ed2k_hash;
    bucket = day row;
    filenames = json_sorted_set dumps (map (λ r. r.filename) (row ∷ rows));
    node_ids = json_sorted_set dumps (map (λ r. r.node_id) (row ∷ rows));
    observation_count = length (row ∷ rows);
    first_observed_at = first_of row.observed_at (map (λ r. r.observed_at) rows);
    last_observed_at = last_of row.observed_at (map (λ r. r.observed_at) rows);
    source_count_min = min_of row.source_count (map (λ r. r.source_count) rows);
    source_count_max = max_of row.source_count (map (λ r. r.source_count) rows);
    source_count_sum = sum (map (λ r. r.source_count) (row ∷ rows));
    complete_source_count_min =
        min_of row.complete_source_count (map (λ r. r.complete_source_count) rows);
    complete_source_count_max =
        max_of row.complete_source_count (map (λ r. r.complete_source_count) rows);
    complete_source_count_sum = sum (map (λ r. r.complete_source_count) (row ∷ rows));
  }

  unfoldable pub bucketize : List ObservationRow → List ObservationBucket
  unfolding group_rows bucket_of
  bucketize observations = map bucket_of (group_rows observations)

  -- A number of a group that adds up over its rows adds up over all rows.
  total_join :
      (f : ObservationRow → ℕ) (row : ObservationRow) (groups : List Group)
      → sum (map (λ g. sum (map f (g.0 ∷ g.1))) (join_group row groups))
        ≡ f row + sum (map (λ g. sum (map f (g.0 ∷ g.1))) groups)
  total_join f row [] = omega arith
  total_join f row ((first, others) ∷ groups) = elim (Bool-cases (same_key row first)) [
    | inl same ↦ rw same (omega arith)
    | inr other ↦ rw other (omega arith)
  ]

  total_groups :
      (f : ObservationRow → ℕ) (rows : List ObservationRow)
      → sum (map (λ g. sum (map f (g.0 ∷ g.1))) (group_rows rows)) ≡ sum (map f rows)
  unfolding group_rows
  total_groups f [] = refl
  total_groups f (row ∷ rows) =
      omega (arith, total_join f row (group_rows rows), total_groups f rows)

  total_buckets :
      (f : ObservationRow → ℕ) (g : ObservationBucket → ℕ) (groups : List Group)
      → ((x : Group) → g (bucket_of x) ≡ sum (map f (x.0 ∷ x.1)))
      → sum (map g (map bucket_of groups)) ≡ sum (map (λ x. sum (map f (x.0 ∷ x.1))) groups)
  total_buckets f g [] h = refl
  total_buckets f g (x ∷ groups) h = omega (arith, h x, total_buckets f g groups h)

  length-sum : (rows : List ObservationRow) → sum (map (λ r. 1) rows) ≡ length rows
  length-sum [] = refl
  length-sum (row ∷ rows) = omega (arith, length-sum rows)

  -- The buckets keep the totals: the number of observations and the sums of both source counts.
  pub bucketize_total :
      (rows : List ObservationRow)
      → (sum (map (λ b. b.observation_count) (bucketize rows)) ≡ length rows)
        × ((sum (map (λ b. b.source_count_sum) (bucketize rows))
              ≡ sum (map (λ r. r.source_count) rows))
            × (sum (map (λ b. b.complete_source_count_sum) (bucketize rows))
                ≡ sum (map (λ r. r.complete_source_count) rows)))
  unfolding bucketize
  bucketize_total rows = (
    total_buckets (λ r. 1) (λ b. b.observation_count) (group_rows rows)
          (λ x. sym (length-sum (x.0 ∷ x.1)))
        ∙ total_groups (λ r. 1) rows
        ∙ length-sum rows,
    (
      total_buckets (λ r. r.source_count) (λ b. b.source_count_sum) (group_rows rows) (λ x. refl)
          ∙ total_groups (λ r. r.source_count) rows,
      total_buckets (λ r. r.complete_source_count) (λ b. b.complete_source_count_sum)
            (group_rows rows) (λ x. refl)
          ∙ total_groups (λ r. r.complete_source_count) rows,
    ),
  )
