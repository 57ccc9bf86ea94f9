-- ===== src/OrchestratorClient/Events/Streams.antt =====
-- What `ReadEvents` delivers of a stream of events, and what it drops.
use compute_backend.Prelude.{
  ◌≡◌, refl, ap, ◌∙◌, ◌≢◌, false, Option, none, some, List, [], ◌∷◌, ◌++◌, append_assoc, arith, All,
  All-append,
}
use compute_backend.Strings.{Text, codes, newline, is_empty, Lacks}
use compute_backend.Strings.Affix.{has_prefix, trim_prefix}
use compute_backend.Strings.Trim.{
  in_set, trim_space, trim_right, trim_space-cons, trim_right_by-drops, trim_right_by_none,
}
use compute_backend.OrchestratorClient.Events.{
  End, eof, line_ends, parse_sse_event, read_strings, Callback, dispatch_event, read_loop,
  read_events,
}

-- How the gateway writes an event: a `data` line and an empty line.
abbrev pub frame : Text → Text
frame payload = codes "data: " ++ (payload ++ (newline ∷ newline ∷ []))

abbrev pub frames : List Text → Text
frames [] = []
frames (p ∷ ps) = frame p ++ frames ps

-- A payload that a `data` line can carry: one line, no space at its ends, not empty.
pub record IsPayload (p : Text) : Type 0 where
  pub one_line : All (λ c. in_set line_ends c ≡ false) p
  pub trimmed : trim_space p ≡ p
  pub nonempty : p ≢ []

module _ {S E : Type 0} (event_fn : Callback S E) where
  -- The callback applied to one payload after another, up to its first error.
  abbrev pub deliver : List Text → S → Option E × S
  deliver [] s = (none, s)
  deliver (p ∷ ps) s =
      let (failure, s') = event_fn p s in
      elim failure [ some e ↦ (some e, s') | none ↦ deliver ps s' ]

read_strings-line :
    (l s : Text)
    → All (λ c. in_set line_ends c ≡ false) l
    → (read_strings (l ++ newline ∷ s)).0 ≡ (l ++ newline ∷ []) ∷ (read_strings s).0
unfolding read_strings
read_strings-line [] s h = refl
read_strings-line (c ∷ l) s (hc, hl) = ground (arith, read_strings-line l s hl)

data_line : Text → Text
data_line p = codes "data: " ++ p

data_line-one_line :
    (p : Text)
    → All (λ c. in_set line_ends c ≡ false) p
    → All (λ c. in_set line_ends c ≡ false) (data_line p)
unfolding data_line
data_line-one_line p h =
    All-append _ (codes "data: ") p (refl, (refl, (refl, (refl, (refl, (refl, tt)))))) h

read_strings-frame :
    (p s : Text)
    → IsPayload p
    → (read_strings (frame p ++ s)).0
      ≡ (data_line p ++ newline ∷ []) ∷ (newline ∷ []) ∷ (read_strings s).0
unfolding data_line
read_strings-frame p s h = rw (append_assoc p (newline ∷ newline ∷ []) s) (
    read_strings-line (data_line p) (newline ∷ s) (data_line-one_line p h.one_line)
    ∙ ap (λ ls. (data_line p ++ newline ∷ []) ∷ ls) (read_strings-line [] s tt))

parse-data_line : (p : Text) → IsPayload p → parse_sse_event (data_line p ∷ []) ≡ some p
unfolding parse_sse_event data_line has_prefix trim_prefix
parse-data_line p h = ground (arith, trim_space-cons 32 p refl, h.trimmed, h.nonempty)

trim-data_line :
    (p : Text) → IsPayload p → trim_right (data_line p ++ newline ∷ []) line_ends ≡ data_line p
unfolding trim_right
trim-data_line p h =
    trim_right_by-drops (in_set line_ends) (data_line p) newline refl
    ∙ trim_right_by_none (in_set line_ends) (data_line p) (data_line-one_line p h.one_line)

module _ {S E : Type 0} (event_fn : Callback S E) where
  read_loop_line :
      (line kept : Text) (todo : List Text) (end : End E) (lines : List Text) (s : S)
      → trim_right line line_ends ≡ kept
      → is_empty kept ≡ false
      → read_loop event_fn (line ∷ todo) end lines s
        ≡ read_loop event_fn todo end (lines ++ kept ∷ []) s
  unfolding read_loop
  read_loop_line line kept todo end lines s e h = ground arith

  -- One event, read by its two lines.
  read_loop_event :
      (p : Text) (todo : List Text) (end : End E) (s : S)
      → IsPayload p
      → read_loop event_fn ((data_line p ++ newline ∷ []) ∷ (newline ∷ []) ∷ todo) end [] s
        ≡ elim (event_fn p s).0 [
          | some e ↦ (some e, (event_fn p s).1)
          | none ↦ read_loop event_fn todo end [] (event_fn p s).1
        ]
  unfolding read_loop dispatch_event
  read_loop_event p todo end s h =
      read_loop_line (data_line p ++ newline ∷ []) (data_line p) ((newline ∷ []) ∷ todo) end [] s
        (trim-data_line p h) (unfold data_line in refl)
      ∙ ground (arith, parse-data_line p h)

  read_loop-frames :
      (ps : List Text) (s : S)
      → All IsPayload ps
      → read_loop event_fn (read_strings (frames ps)).0 eof [] s ≡ deliver event_fn ps s
  read_loop-frames [] s h = unfold read_strings read_loop dispatch_event in refl
  read_loop-frames (p ∷ ps) s (hp, hps) =
      rw (read_strings-frame p (frames ps) hp, read_loop_event p _ eof s hp)
        (ground (arith, read_loop-frames ps (event_fn p s).1 hps))

  -- A stream of framed payloads that ends regularly delivers exactly those payloads, in their order,
  -- up to the first error of the callback, which is the result.
  pub read_events-frames :
      (ps : List Text) (s : S)
      → All IsPayload ps
      → read_events event_fn (frames ps) eof s ≡ deliver event_fn ps s
  unfolding read_events
  read_events-frames ps s h = read_loop-frames ps s h

read_strings-Lacks : (tail : Text) → Lacks newline tail → (read_strings tail).0 ≡ []
unfolding read_strings
read_strings-Lacks [] h = refl
read_strings-Lacks (c ∷ tail) (hc, ht) = ground (arith, read_strings-Lacks tail ht)

read_strings-tail :
    (body tail : Text)
    → Lacks newline tail
    → (read_strings (body ++ newline ∷ tail)).0 ≡ (read_strings (body ++ newline ∷ [])).0
unfolding read_strings
read_strings-tail [] tail h = ground (arith, read_strings-Lacks tail h)
read_strings-tail (c ∷ body) tail h = ground (arith, read_strings-tail body tail h)

module _ {S E : Type 0} (event_fn : Callback S E) where
  -- A last line without its newline is dropped: whatever follows the last newline of a stream makes no
  -- difference, be it an event of its own.
  pub read_events_drops_tail :
      (body tail : Text) (end : End E) (s : S)
      → Lacks newline tail
      → read_events event_fn (body ++ newline ∷ tail) end s
        ≡ read_events event_fn (body ++ newline ∷ []) end s
  unfolding read_events
  read_events_drops_tail body tail end s h =
      ap (λ ls. read_loop event_fn ls end [] s) (read_strings-tail body tail h)
