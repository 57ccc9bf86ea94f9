-- ===== src/OrchestratorClient/Events.antt =====
-- `ReadEvents`, `dispatchEvent` and `ParseSSEEvent` of pkg/orchestrator/client.go: server-sent events.
pub mod Streams
use compute_backend.Prelude.{
  ℕ, zero, suc, ◌+◌, ◌-◌, ◌*◌, ◌/◌, ◌%◌, ◌^◌, ◌≤◌, ◌<◌, String, ◌≡◌, refl, sym, ap, ◌∙◌, ◌≢◌, ◌↔◌,
  ◌⊎◌, inl, inr, Bool, true, false, not, ◌&&◌, ◌||◌, Option, none, some, List, [], ◌∷◌, ◌++◌, map,
  append_assoc, append-nil, arith, ltb, leb, ◌==◌, if◌then◌else◌, ltb→lt, leb→le, ==_iff, ==-refl,
  Bool-cases, Result, ok, err, is_some, Option-cases, Result-cases, ℤ, pos, negsuc, is_zero, length,
  get_elem?, take, drop, length-append, length-take-le, drop-append, take-append, any, find?, All,
  All-append,
}
use compute_backend.Strings.{
  Text, codes, newline, slash, text_eq, is_empty, text_eq→eq, text_eq_refl, eq→text_eq, text_eq_iff,
  Lacks,
}
use compute_backend.Strings.Affix.{
  after_prefix, has_prefix, trim_prefix, has_suffix, trim_suffix, contains, after_prefix-append,
  after_prefix_sound, has_prefix-append, trim_prefix-append, has_prefix_sound, trim_prefix_none,
  has_suffix-append, trim_suffix-append, trim_suffix_none,
}
use compute_backend.Strings.Trim.{
  is_space, in_set, trim_left_by, trim_right_by, trim_by, trim_space, trim, trim_right,
  trim_space_idem, trim_space-cons, trim_left_by_id, trim_right_by-concat, trim_right_by-drops,
  trim_right_by_none,
}
use compute_backend.Strings.Search.{index, last_index}
use compute_backend.Strings.Split.{split, join, split-Lacks, split-append}
use compute_backend.Strings.Fold.{
  lower, upper, fold, to_lower, to_upper, equal_fold, replace_all, equal_fold_refl,
  equal_fold_trans, equal_fold_sym,
}

-- How the stream ends: `io.EOF`, or another read error.
pub data End (E : Type 0) : Type 0 where
  eof : End E
  read_failed : E → End E

abbrev pub data_field : Text
data_field = codes "data:"

abbrev pub line_ends : Text
line_ends = codes "\r\n"

unfoldable pub parse_sse_event : List Text → Option Text
unfolding has_prefix trim_prefix trim_space
parse_sse_event [] = none
parse_sse_event (line ∷ lines) =
    let payload = trim_space (trim_prefix line data_field) in
    let rest = parse_sse_event lines in
    if has_prefix line data_field then (if is_empty payload then rest else some payload) else rest

-- A code point in front of what is read: it joins the first line, or the text without a newline.
abbrev pub push_line : ℕ → List Text → Text → List Text × Text
push_line c [] tail = ([], c ∷ tail)
push_line c (l ∷ ls) tail = ((c ∷ l) ∷ ls, tail)

-- What the successive calls of `ReadString('\n')` return, each with its newline, and the text that
-- stands in front of the final error.
unfoldable pub read_strings : Text → List Text × Text
read_strings [] = ([], [])
read_strings (c ∷ s) =
    let rest = read_strings s in
    if c == newline then ((c ∷ []) ∷ rest.0, rest.1) else push_line c rest.0 rest.1

-- The callback may fail and has a state of its own.
abbrev pub Callback : Type 0 → Type 0 → Type 0
Callback S E = Text → S → Option E × S

module _ {S E : Type 0} (event_fn : Callback S E) where
  unfoldable pub dispatch_event : List Text → S → Option E × S
  unfolding parse_sse_event
  dispatch_event [] s = (none, s)
  dispatch_event (l ∷ ls) s = elim (parse_sse_event (l ∷ ls)) [
    | none ↦ (none, s)
    | some payload ↦ event_fn payload s
  ]

  -- The loop of `ReadEvents`: the lines still to read, how the stream ends, and the variable `lines`.
  unfoldable pub read_loop : List Text → End E → List Text → S → Option E × S
  unfolding dispatch_event trim_right
  read_loop [] eof lines s = dispatch_event lines s
  read_loop [] (read_failed e) lines s = (some e, s)
  read_loop (line ∷ todo) end lines s =
      let trimmed = trim_right line line_ends in
      elim (is_empty trimmed) [
        | true ↦
            let (failure, s') = dispatch_event lines s in
            elim failure [ some e ↦ (some e, s') | none ↦ read_loop todo end [] s' ]
        | false ↦ read_loop todo end (lines ++ trimmed ∷ []) s
      ]

  unfoldable pub read_events : Text → End E → S → Option E × S
  unfolding read_loop read_strings
  read_events body end s = read_loop (read_strings body).0 end [] s
