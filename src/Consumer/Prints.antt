-- ===== src/Consumer/Prints.antt =====
-- What `main` of user/consumer.py prints of the samples that the driver sends, in each of its three
-- outputs.
use lkm_char_dev.Base.{
  ℕ, ◌+◌, ◌-◌, ◌^◌, ◌<◌, ◌≡◌, ◌∙◌, refl, ap, true, Bool-cases, inl, inr, some, List, [], ◌∷◌, ◌++◌,
  map, length, take, drop, All-take, All-drop, if◌then◌else◌,
}
use mathlib.Core.List.{Sublist}
use lkm_char_dev.Base.Int.{pos}
use lkm_char_dev.Uapi.{GpuSample, IsSample}
use lkm_char_dev.Printing.{Printf}
use lkm_char_dev.Driver.{Driver, Used}
use lkm_char_dev.Driver.Load.{Used-IsSample}
use lkm_char_dev.Driver.Streams.{driver-Stream}
use lkm_char_dev.Consumer.{
  UnpackedSample, End, returned, interrupted, raised, waiting, samples, fresh_buffer, numbered_rows,
}
use lkm_char_dev.Consumer.Unpack.{view}
use lkm_char_dev.Consumer.Rows.{limited, indexed, rows_limited}
use lkm_char_dev.Uapi.Selected.{Sublist-IsSample}
use lkm_char_dev.Consumer.Stream.{Fed, samples-Fed}
use lkm_char_dev.Consumer.Main.{
  Args, Calls, ring_size, interval_ms, Event, interval_set, csv_header, csv_row, json_line, banner,
  table_row, summary, closed, uncaught, csv_line, json_print, table_line, finish, stream_samples,
  main,
}

module _ (p : Printf) where
  -- The lines that stand for a sample.
  abbrev pub sample_lines : List (Event p) → List (Event p)
  sample_lines [] = []
  sample_lines (csv_row idx d names ∷ es) = csv_row idx d names ∷ sample_lines es
  sample_lines (json_line idx d ∷ es) = json_line idx d ∷ sample_lines es
  sample_lines (table_row cells ∷ es) = table_row cells ∷ sample_lines es
  sample_lines (interval_set ms ∷ es) = sample_lines es
  sample_lines (csv_header ∷ es) = sample_lines es
  sample_lines (banner ring_sz interval ∷ es) = sample_lines es
  sample_lines (summary n ∷ es) = sample_lines es
  sample_lines (closed ∷ es) = sample_lines es
  sample_lines (uncaught ∷ es) = sample_lines es

  -- The line of a sample, by the arguments.
  abbrev pub line_of : Args → ℕ × UnpackedSample → Event p
  line_of a row =
      if a.csv then csv_line p row else if a.json then json_print p row else table_line p row

  sample_lines-map :
      (print : ℕ × UnpackedSample → Event p)
      → ((x : ℕ × UnpackedSample) (es : List (Event p))
          → sample_lines (print x ∷ es) ≡ print x ∷ sample_lines es)
      → (rows : List (ℕ × UnpackedSample)) (behind : List (Event p)) → sample_lines behind ≡ []
      → sample_lines (map print rows ++ behind) ≡ map print rows
  sample_lines-map print kept [] behind none_behind = none_behind
  sample_lines-map print kept (x ∷ xs) behind none_behind =
      kept x (map print xs ++ behind)
      ∙ ap (λ t. print x ∷ t) (sample_lines-map print kept xs behind none_behind)

  -- What comes behind a loop holds no such line.
  none_after :
      (end : End) (after : List (Event p))
      → sample_lines after ≡ []
      → sample_lines (finish p end after) ≡ []
  none_after returned after e = e
  none_after interrupted after e = e
  none_after raised after e = refl
  none_after waiting after e = refl

  -- The lines of a run that goes on, of whatever its generator yields.
  stream_lines :
      (a : Args) (c : Calls) {ring_sz interval : ℕ}
      → a.set_interval ≡ pos 0
      → c.open_ok a.device ≡ true
      → ring_size c ≡ some ring_sz
      → interval_ms c ≡ some interval
      → sample_lines (main p a c)
        ≡ map (line_of a) (numbered_rows a.count 0 (samples fresh_buffer c.answers)).0
  unfolding main stream_samples
  stream_lines a c unset opens size interval =
      let (rows, end) = numbered_rows a.count 0 (samples fresh_buffer c.answers) in
      elim (Bool-cases a.csv) [
        | inl csv ↦
            rw (opens, unset, size, interval, csv)
              (sample_lines-map (csv_line p) (λ x es. refl) rows _ (none_after end _ refl))
        | inr not_csv ↦ elim (Bool-cases a.json) [
          | inl json ↦
              rw (opens, unset, size, interval, not_csv, json)
                (sample_lines-map (json_print p) (λ x es. refl) rows _ (none_after end _ refl))
          | inr table ↦
              rw (opens, unset, size, interval, not_csv, table)
                (sample_lines-map (table_line p) (λ x es. refl) rows _ (none_after end _ refl))
        ]
      ]

  -- From the collector to the output of the script: the reads of a file of the driver reported
  -- some bytes, and a run of consumer.py without `--set-interval`, whose `open` and two ioctls
  -- succeed, received exactly these, whole samples at a time, between timeouts, up to a
  -- KeyboardInterrupt, an OSError or a further wait. The lines that it prints for samples, as CSV,
  -- as JSON or in the table, are those of a selection, in order, of the samples pushed between the
  -- file's opening and its position, numbered from 0 and as far as `--count` allows, and if none
  -- of them was missed, of them all. Condition: fewer than 2^64 - 1 samples were pushed.
  pub consumer_prints_stream :
      {s : Driver} (used : Used s)
      → length s.log + 1 < 2 ^ 64
      → (i : ℕ) {n : ℕ} → (s.files i).private_data ≡ some n
      → (a : Args) (c : Calls) {ring_sz interval : ℕ} {end : End} → Fed c.answers (s.sent i) end
      → a.set_interval ≡ pos 0
      → c.open_ok a.device ≡ true
      → ring_size c ≡ some ring_sz
      → interval_ms c ≡ some interval
      → let pushed = take (n - s.start i) (drop (s.start i) s.log) in
        (given : List GpuSample) × (sample_lines (main p a c)
          ≡ map (line_of a) (indexed 0 (limited a.count (map view given))))
        × Sublist given pushed
        × (s.start i + length given ≡ n → given ≡ pushed)
  consumer_prints_stream {s} used fits i {n} opened a c fed unset opens size interval =
      let (given, sends, _, _, part, complete) = driver-Stream used fits i opened in
      let way =
        All-take IsSample (n - s.start i) (drop (s.start i) s.log)
          (All-drop IsSample (s.start i) s.log (Used-IsSample used)) in
      let yielded = samples-Fed fresh_buffer given fed sends (Sublist-IsSample part way) in
      (
        given,
        stream_lines a c unset opens size interval
            ∙ ap (map (line_of a)) (
                rows_limited a.count fresh_buffer c.answers
                ∙ ap (λ y. indexed 0 (limited a.count y.0)) yielded),
        part,
        complete,
      )
