-- ===== src/Pii/Redactor.antt =====
-- crates/pii/src/redact.rs. A step that panics is `none`; the ML engine and the recognizers'
-- libraries are parameters. An error carries which of the messages it has, not the text.
pub mod Json
pub mod Spans
pub mod Lens
pub mod Walk
mod Tests
pub mod Leaves
pub mod Defers
pub mod Redacts
use dbmcp.Prelude.{
  ℕ, zero, suc, ◌+◌, ◌-◌, Bytes, List, [], ◌∷◌, ◌++◌, map, length, take, Bool, Option, none, some,
  Result, ok, err,
}
use dbmcp.Prelude.Opt.{◌>>=◌}
use dbmcp.Pii.Result.{RecognizerResult}
use dbmcp.Pii.Operators.{Digests}
use dbmcp.Pii.Validators.{Libraries}
use dbmcp.Pii.Words.{Unicode, push_key_words}
use dbmcp.Pii.Recognizers.{Recognizer}
use dbmcp.Pii.Anonymizer.{OperatorConfig}
use dbmcp.Pii.Analyzer.{AnalyzeOptions, analyze_with_context}
use Spans.{RedactionStats, no_stats, merge_spans, apply_spans, apply_found, scanned}
use Json.{
  Value, null, bool, number, string, array, object, Items, no_items, item, Fields, no_fields, field,
  Loc, at, put,
}

-- What `RedactionError::Internal` says.
pub data RedactionError : Type 0 where
  analyzer_panicked : RedactionError
  inference_failed : Bytes → RedactionError

-- `frame` in the source: `Root`, `KeyedChild` and `Pop`.
pub data Frame : Type 0 where
  root : Loc → Frame
  keyed_child : Loc → Bytes → Frame
  pop : ℕ → Frame

pub record LeafSlot : Type 0 where
  pub slot : Loc
  pub text : Bytes
  pub regex : List RecognizerResult

-- What the leaves add to: the statistics, and the leaves deferred to the engine.
pub record Gathered : Type 0 where
  pub stats : RedactionStats
  pub slots : List LeafSlot

-- The rows are the items of an array.
pub record Walker : Type 0 where
  pub stack : List Frame
  pub path : List Bytes
  pub rows : Value
  pub gathered : Gathered

-- `analyze_batch` of the engine.
abbrev pub Engine : Type 0
Engine = List Bytes → Result (List (List RecognizerResult)) Bytes

pub record Redactor : Type 0 where
  pub recognizers : List Recognizer
  pub engine : Option Engine
  pub operator : OperatorConfig
  pub opts : AnalyzeOptions

-- The children of an object or an array, pushed in their order.
unfoldable pub push_fields : Loc → ℕ → Fields → List Frame → List Frame
push_fields loc i no_fields stack = stack
push_fields loc i (field k v fs) stack =
    push_fields loc (suc i) fs (keyed_child (loc ++ i ∷ []) k ∷ stack)

unfoldable pub push_items : Loc → ℕ → Items → List Frame → List Frame
push_items loc i no_items stack = stack
push_items loc i (item v vs) stack = push_items loc (suc i) vs (root (loc ++ i ∷ []) ∷ stack)

-- `rows.iter_mut().rev().map(Frame::Root)`, whose last element is the top of the stack.
unfoldable pub row_frames : ℕ → Items → List Frame
row_frames i no_items = []
row_frames i (item v vs) = root (i ∷ []) ∷ row_frames (suc i) vs

with_stats : List LeafSlot → Bytes × RedactionStats → Bytes × Gathered
with_stats slots (s, stats) = (s, record { stats = stats; slots = slots })

module _ (libraries : Libraries) (unicode : Unicode) (add : ℕ → ℕ → ℕ) (digests : Digests)
    (redactor : Redactor) where
  -- A leaf with its spans: deferred to the engine, and emptied, or rewritten.
  pub defer :
      Option Engine
      → Loc
      → Bytes
      → List RecognizerResult
      → RedactionStats
      → List LeafSlot
      → Option (Bytes × Gathered)
  unfolding apply_found with_stats
  defer (some engine) loc s regex stats slots = some (
    [],
    record { stats = stats; slots = slots ++ record { slot = loc; text = s; regex = regex } ∷ [] },
  )
  defer none loc s regex stats slots = do
    after ← apply_found digests redactor.operator s regex stats
    some (with_stats slots after)

  -- The arm of a string: its new contents.
  unfoldable pub visit_leaf : Loc → List Bytes → Bytes → Gathered → Option (Bytes × Gathered)
  unfolding analyze_with_context scanned defer
  visit_leaf loc path s g = do
    regex ← analyze_with_context libraries unicode add redactor.recognizers s path redactor.opts
    defer redactor.engine loc s regex (scanned g.stats) g.slots

-- The arms of the match, for a handler of the string leaves.
module _ (leaf : Loc → List Bytes → Bytes → Gathered → Option (Bytes × Gathered)) where
  visit : Loc → Option Value → Walker → Option Walker
  unfolding push_fields push_items put
  visit loc none w = none
  visit loc (some (string s)) w = do
    (s', g) ← leaf loc w.path s w.gathered
    some
        (record { stack = w.stack; path = w.path; rows = put loc (string s') w.rows; gathered = g })
  visit loc (some (object fs)) w = some (record {
    stack = push_fields loc 0 fs w.stack;
    path = w.path;
    rows = w.rows;
    gathered = w.gathered;
  })
  visit loc (some (array vs)) w = some (record {
    stack = push_items loc 0 vs w.stack;
    path = w.path;
    rows = w.rows;
    gathered = w.gathered;
  })
  visit loc (some (number n)) w = some w
  visit loc (some (bool b)) w = some w
  visit loc (some null) w = some w

  enter : Loc → List Bytes × ℕ → Walker → Option Walker
  unfolding visit at
  enter loc (path, n) w =
      visit loc (at loc w.rows)
        (record { stack = pop n ∷ w.stack; path = path; rows = w.rows; gathered = w.gathered })

  -- One pass of the loop, for the frame that was popped.
  step : Frame → Walker → Option Walker
  unfolding visit enter at push_key_words
  step (pop n) w = some (record {
    stack = w.stack;
    path = take (length w.path - n) w.path;
    rows = w.rows;
    gathered = w.gathered;
  })
  step (root loc) w = visit loc (at loc w.rows) w
  step (keyed_child loc key) w = enter loc (push_key_words w.path key) w

  -- The loop, on fuel: a frame that finds none left is a `none` as well.
  unfoldable pub run : ℕ → List Frame → List Bytes → Value → Gathered → Option (Value × Gathered)
  unfolding step
  run fuel [] path rows g = some (rows, g)
  run zero (frame ∷ stack) path rows g = none
  run (suc fuel) (frame ∷ stack) path rows g = do
    w ← step frame (record { stack = stack; path = path; rows = rows; gathered = g })
    run fuel w.stack w.path w.rows w.gathered

-- The frames that a value puts on the stack, its own included.
unfoldable mutual
  pub weight : Value → ℕ
  weight null = 1
  weight (bool b) = 1
  weight (number n) = 1
  weight (string s) = 1
  weight (array vs) = suc (weight_items vs)
  weight (object fs) = suc (weight_fields fs)

  pub weight_items : Items → ℕ
  weight_items no_items = 0
  weight_items (item v vs) = weight v + weight_items vs

  pub weight_fields : Fields → ℕ
  weight_fields no_fields = 0
  weight_fields (field k v fs) = suc (weight v) + weight_fields fs

abbrev pub Outcome : Type 0
Outcome = Result (Value × RedactionStats) RedactionError

-- `result.map_err(…)?` on what `catch_unwind` returns, in a build that unwinds; with the `panic =
-- "abort"` of the release profile in Cargo.toml the process ends where this is `none`.
pub caught : {A : Type 0} → Option (Result A RedactionError) → Result A RedactionError
caught none = err analyzer_panicked
caught (some r) = r

module _ (digests : Digests) (redactor : Redactor) where
  -- The loop over the deferred leaves, zipped with the engine's spans.
  merge_all :
      List LeafSlot
      → List (List RecognizerResult)
      → Value
      → RedactionStats
      → Option (Value × RedactionStats)
  unfolding apply_found merge_spans put
  merge_all [] per_leaf rows stats = some (rows, stats)
  merge_all (leaf ∷ slots) [] rows stats = some (rows, stats)
  merge_all (leaf ∷ slots) (ner ∷ per_leaf) rows stats = do
    (s, stats') ←
        apply_found digests redactor.operator leaf.text
          (merge_spans leaf.regex ner redactor.opts.min_score) stats
    merge_all slots per_leaf (put leaf.slot (string s) rows) stats'

  pub on_batch :
      Result (List (List RecognizerResult)) Bytes
      → List LeafSlot
      → Value
      → RedactionStats
      → Option Outcome
  unfolding merge_all
  on_batch (err e) slots rows stats = some (err (inference_failed e))
  on_batch (ok per_leaf) slots rows stats = do
    merged ← merge_all slots per_leaf rows stats
    some (ok merged)

  pub infer : Option Engine → List LeafSlot → Value → RedactionStats → Option Outcome
  unfolding on_batch
  infer none slots rows stats = some (ok (rows, stats))
  infer (some engine) [] rows stats = some (ok (rows, stats))
  infer (some engine) (leaf ∷ slots) rows stats =
      on_batch (engine (map (λ l. l.text) (leaf ∷ slots))) (leaf ∷ slots) rows stats

module _ (libraries : Libraries) (unicode : Unicode) (add : ℕ → ℕ → ℕ) (digests : Digests)
    (redactor : Redactor) where
  -- The closure under `catch_unwind`.
  pub unwinding : Items → Option Outcome
  unfolding infer run row_frames visit_leaf weight
  unwinding rows = do
    (rows', g) ←
        run (visit_leaf libraries unicode add digests redactor) (weight_items rows)
          (row_frames 0 rows) [] (array rows) (record { stats = no_stats; slots = [] })
    infer digests redactor redactor.engine g.slots rows' g.stats

  -- `Redactor::apply`, with the rows as it leaves them.
  unfoldable pub apply : Items → Outcome
  unfolding unwinding caught
  apply rows = caught (unwinding rows)

  -- `Redactor::redact_text`
  unfoldable pub redact_text : Bytes → Result Bytes RedactionError
  unfolding analyze_with_context apply_spans caught
  redact_text text = caught (do
    rs ← analyze_with_context libraries unicode add redactor.recognizers text [] redactor.opts
    (out, stats) ← apply_spans digests redactor.operator text rs no_stats
    some (ok out))

-- The `Option<Redactor>` that the handlers hold, with what the runtime reports of the blocking task.
abbrev pub JoinError : Type 0
JoinError = Option Bytes

pub data RowsError : Type 0 where
  redaction : RedactionError → RowsError
  task_panicked : Bytes → RowsError

rows_of : Outcome → Result Value RowsError
rows_of (ok (rows, stats)) = ok rows
rows_of (err e) = err (redaction e)

joined : JoinError → Result Value RowsError → Result Value RowsError
joined none rows = rows
joined (some e) rows = err (task_panicked e)

message_or : (RedactionError → Bytes) → Result Bytes RedactionError → Bytes
message_or to_string (ok text) = text
message_or to_string (err e) = to_string e

module _ (libraries : Libraries) (unicode : Unicode) (add : ℕ → ℕ → ℕ) (digests : Digests)
    (to_string : RedactionError → Bytes) where
  offloaded : Option Engine → JoinError → Result Value RowsError → Result Value RowsError
  unfolding joined
  offloaded (some engine) join rows = joined join rows
  offloaded none join rows = rows

  -- `MaybeRedact::redact_rows`, and `Redactor::redact_rows` in it
  unfoldable pub redact_rows : Option Redactor → JoinError → Items → Result Value RowsError
  unfolding offloaded rows_of apply
  redact_rows none join rows = ok (array rows)
  redact_rows (some redactor) join rows =
      offloaded redactor.engine join (rows_of (apply libraries unicode add digests redactor rows))

  -- `MaybeRedact::redact_message`
  unfoldable pub redact_message : Option Redactor → Bytes → Bytes
  unfolding message_or redact_text
  redact_message none message = message
  redact_message (some redactor) message =
      message_or to_string (redact_text libraries unicode add digests redactor message)
