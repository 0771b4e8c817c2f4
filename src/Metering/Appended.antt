-- ===== src/Metering/Appended.antt =====
-- What is read of a file of events that were appended to it.
use pzd.Base.{
  ◌≡◌, refl, sym, ap, ◌∙◌, true, false, Option, none, some, List, [], ◌∷◌, ◌++◌, append_assoc,
  append-nil, All, Bytes,
}
use pzd.Base.Result.{Result, ok, unwrap_or}
use pzd.Base.Text.{lines, is_utf8}
use pzd.Base.Lined.{Unbroken, text_of, text_of-append, lines-text_of}
use pzd.Metering.{MeteringError, MarketplaceUsageEvent, is_blank}
use pzd.Metering.Journal.{
  Serde, no_faults, write_event, end_line, append_event_jsonl, read_line, read_lines,
  read_events_jsonl,
}

module _ (S : Serde) where
  -- What serde_json does with an event: a line of text that is not blank, from which the event is read
  -- back.
  pub record Written (event : MarketplaceUsageEvent) : Type 0 where
    pub line : Bytes
    pub is_written : S.to_writer event ≡ (line, ok tt)
    pub unbroken : All Unbroken line
    pub utf8 : is_utf8 line ≡ true
    pub not_blank : is_blank line ≡ false
    pub is_read : S.from_str line ≡ ok event

  -- A run of appends without faults, from a file on.
  unfoldable pub append_all : Option Bytes → List MarketplaceUsageEvent → Option Bytes
  unfolding append_event_jsonl
  append_all file [] = file
  append_all file (event ∷ events) = append_all (append_event_jsonl S no_faults file event).1 events

  lines_of : (events : List MarketplaceUsageEvent) → All Written events → List Bytes
  lines_of [] w = []
  lines_of (event ∷ events) w = w.0.line ∷ lines_of events w.1

  append_event_jsonl-text_of :
      (file : Option Bytes) (ls : List Bytes) (event : MarketplaceUsageEvent) (w : Written event)
      → unwrap_or file [] ≡ text_of false ls
      → append_event_jsonl S no_faults file event
        ≡ (ok tt, some (text_of false (ls ++ (w.line ∷ []))))
  unfolding append_event_jsonl write_event end_line
  append_event_jsonl-text_of file ls event w e =
      ap (write_event no_faults (unwrap_or file [])) w.is_written
      ∙ ap (λ c. (ok tt, some ((c ++ w.line) ++ (10 ∷ [])))) e
      ∙ ap (λ c. (ok tt, some c))
          (append_assoc (text_of false ls) w.line (10 ∷ []) ∙ sym (text_of-append false ls w.line))

  append_all-text_of :
      (events : List MarketplaceUsageEvent) (w : All Written events) (file : Option Bytes)
      (ls : List Bytes)
      → unwrap_or file [] ≡ text_of false ls
      → unwrap_or (append_all file events) [] ≡ text_of false (ls ++ lines_of events w)
  unfolding append_all lines_of
  append_all-text_of [] w file ls e = e ∙ ap (text_of false) (sym (append-nil ls))
  append_all-text_of (event ∷ events) w file ls e =
      let one = append_event_jsonl-text_of file ls event w.0 e in
      append_all-text_of events w.1 (append_event_jsonl S no_faults file event).1
        (ls ++ (w.0.line ∷ []))
        (ap (λ (out : Result MeteringError (Unit {0}) × Option Bytes). unwrap_or out.1 []) one)
      ∙ ap (text_of false) (append_assoc ls (w.0.line ∷ []) (lines_of events w.1))

  lines_of-Unbroken :
      (events : List MarketplaceUsageEvent) (w : All Written events)
      → All (All Unbroken) (lines_of events w)
  unfolding lines_of
  lines_of-Unbroken [] w = tt
  lines_of-Unbroken (event ∷ events) w = (w.0.unbroken, lines_of-Unbroken events w.1)

  read_lines-lines_of :
      (events : List MarketplaceUsageEvent) (w : All Written events)
      → read_lines S (lines_of events w) ≡ ok events
  unfolding read_lines read_line lines_of
  read_lines-lines_of [] w = refl
  read_lines-lines_of (event ∷ events) w =
      rw (w.0.utf8, w.0.not_blank, w.0.is_read, read_lines-lines_of events w.1) refl

  -- From a file to which events were appended one after the other, starting without a file, exactly those events
  -- are read, in their order, if serde_json writes each of them as a line of text that it reads back.
  pub read_events_jsonl-append_all :
      (events : List MarketplaceUsageEvent)
      → All Written events
      → read_events_jsonl S (ok (unwrap_or (append_all none events) [])) ≡ ok events
  unfolding read_events_jsonl text_of
  read_events_jsonl-append_all events w =
      ap (λ t. read_lines S (lines t)) (append_all-text_of events w none [] refl)
      ∙ ap (read_lines S) (lines-text_of false (lines_of events w) (lines_of-Unbroken events w))
      ∙ read_lines-lines_of events w
