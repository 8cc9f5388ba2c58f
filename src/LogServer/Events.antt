-- ===== src/LogServer/Events.antt =====
-- What cmd/mp0/server/root.go prints of the events that cmd/mp0/client/root.go sends.
use cs425_mps.Base.{
  ℕ, zero, suc, ◌+◌, ◌≤◌, ◌<◌, Bool, true, false, none, some, List, [], ◌∷◌, ◌++◌, ◌≡◌, refl, sym,
  ◌≢◌, ap, ◌∙◌, length, if◌then◌else◌, Option-cases, ◌⊎◌, inl, inr, arith,
}
use mathlib.Core.List.{append_assoc, append-nil}
use cs425_mps.Base.Text.{Str}
use cs425_mps.Base.Run.{ok}
use cs425_mps.Base.Result.{Error, Result}
use cs425_mps.Codec.{Codec, Bytes}
use cs425_mps.Client.{frame}
use cs425_mps.Base.Int.{pos}
use cs425_mps.Strings.{fields, format_int}
use cs425_mps.LogClient.{Msg, line_msg, encode, copy_loop, copy_stdin_to_tcp}
use cs425_mps.LogServer.{
  Params, Floats, Decoded, decoded, eof, Printed, connected, disconnected, event, Output, print,
  measure, take_msg, request_loop, handle_request, byte_length,
}

-- The messages of the lines that have two fields.
unfoldable msgs_of : Str → List Str → List Msg
msgs_of name [] = []
msgs_of name (line ∷ lines) =
    let rest = msgs_of name lines in
    elim (line_msg name (fields line)) [ none ↦ rest | some m ↦ m ∷ rest ]

-- The messages of the lines: one for each line of two fields, with the first as its timestamp and the
-- second as its payload.
pub data AreEvents (name : Str) : List Str → List Msg → Type 0 where
  no_line : AreEvents name [] []
  event_line :
      {line timestamp payload : Str} {lines : List Str} {ms : List Msg}
      → fields line ≡ timestamp ∷ payload ∷ []
      → AreEvents name lines ms
      → AreEvents name
          (line ∷ lines)
          (record { from = name; timestamp = timestamp; payload = payload } ∷ ms)
  other_line :
      {line : Str} {lines : List Str} {ms : List Msg}
      → length (fields line) ≢ 2
      → AreEvents name lines ms
      → AreEvents name (line ∷ lines) ms

add_line :
    (name line : Str) (lines : List Str) (ms : List Msg) (words : List Str)
    → fields line ≡ words
    → AreEvents name lines ms
    → AreEvents name (line ∷ lines) (elim (line_msg name words) [ none ↦ ms | some m ↦ m ∷ ms ])
unfolding line_msg
add_line name line lines ms [] e h = other_line (λ two. ground (arith, e, two)) h
add_line name line lines ms (timestamp ∷ []) e h = other_line (λ two. ground (arith, e, two)) h
add_line name line lines ms (timestamp ∷ payload ∷ []) e h = event_line e h
add_line name line lines ms (timestamp ∷ payload ∷ more ∷ words) e h =
    other_line
      (λ two.
        let counted : length (fields line) ≡ suc (suc (suc (length words))) = ap length e in
        omega (arith, counted, two))
      h

msgs_of-AreEvents : (name : Str) (lines : List Str) → AreEvents name lines (msgs_of name lines)
unfolding msgs_of
msgs_of-AreEvents name [] = no_line
msgs_of-AreEvents name (line ∷ lines) =
    add_line name line lines (msgs_of name lines) (fields line) refl (msgs_of-AreEvents name lines)

-- A connection that takes the next `n` writes.
abbrev pub takes_all : ℕ → List Bool
takes_all zero = []
takes_all (suc n) = true ∷ takes_all n

msgs_of-length : (name : Str) (lines : List Str) → length (msgs_of name lines) ≤ length lines
unfolding msgs_of
msgs_of-length name [] = omega arith
msgs_of-length name (line ∷ lines) = elim (Option-cases (line_msg name (fields line))) [
  | inl skip ↦ ground (arith, msgs_of-length name lines)
  | inr (m, is_event) ↦ ground (arith, msgs_of-length name lines)
]

-- What a run prints of messages, from the i-th reading of the clock on. `from` is the last sender.
unfoldable pub shown : {F : Type 0} → (ℕ → F) → F → Bool → ℕ → Str → List Msg → List (Printed F)
shown now established first i from [] = disconnected (now i) from ∷ []
shown now established first i from (m ∷ ms) =
    let rest = event (now i) m.from m.payload ∷ shown now established false (i + 1) m.from ms in
    if first then connected established m.from ∷ rest else rest

-- `reads` and `ends` say what the decoder makes of the output of the encoder.
module _ {F : Type 0} (fl : Floats F) (cp : Codec Params) (decode : Msg → Bytes → Decoded)
    (now : ℕ → F) (c : Codec Msg) (marshals : (m : Msg) → (b : Bytes) × (c.marshal m ≡ Result.ok b))
    (reads : (old m : Msg) (b rest : Bytes)
      → c.marshal m ≡ Result.ok b
      → decode old (frame b ++ rest) ≡ decoded m rest)
    (ends : (old : Msg) → decode old [] ≡ eof) where
  abbrev stream : List Msg → Bytes
  stream [] = []
  stream (m ∷ ms) = frame (marshals m).0 ++ stream ms

  copy_loop-stream :
      (name : Str) (n : ℕ) (lines : List Str) (written : Bytes)
      → length lines ≤ n
      → copy_loop c name (takes_all n) lines written
        ≡ (written ++ stream (msgs_of name lines), none)
  unfolding copy_loop encode msgs_of
  copy_loop-stream name n [] written l = ap (λ b. (b, none)) (sym (append-nil written))
  copy_loop-stream name zero (line ∷ lines) written l = absurd (omega arith)
  copy_loop-stream name (suc n) (line ∷ lines) written l =
      elim (Option-cases (line_msg name (fields line))) [
        | inl skip ↦ ground (arith, copy_loop-stream name (suc n) lines written (omega arith))
        | inr (m, is_event) ↦
            let (b, e) = marshals m in
            ground (
              arith,
              copy_loop-stream name n lines (written ++ frame b) (omega arith),
              append_assoc written (frame b) (stream (msgs_of name lines)),
            )
      ]

  Result-cases :
      (r : Result Bytes) → ((b : Bytes) × (r ≡ Result.ok b)) ⊎ ((e : Error) × (r ≡ Result.err e))
  Result-cases (Result.ok b) = inl (b, refl)
  Result-cases (Result.err e) = inr (e, refl)

  abbrev params : F → Msg → F → Params
  params t m sent = record {
    delay = fl.format_float (fl.minus t sent);
    timestamp = fl.format_float t;
    size = format_int (pos (byte_length m.payload));
  }

  measure-printed :
      (t : F) (m : Msg) (o : Output F) → (measure fl cp decode now t m o).printed ≡ o.printed
  unfolding measure
  measure-printed t m o = elim (Option-cases (fl.parse_float m.timestamp)) [
    | inl bad ↦ ground arith
    | inr (sent, good) ↦ elim (Result-cases (cp.marshal (params t m sent))) [
      | inl (b, e) ↦ ground arith
      | inr (x, e) ↦ ground arith
    ]
  ]

  -- What the lines of one message are.
  abbrev printed_of : F → Bool → F → Msg → List (Printed F)
  printed_of established first t m =
      if first
      then connected established m.from ∷ event t m.from m.payload ∷ []
      else event t m.from m.payload ∷ []

  take_msg-printed :
      (established : F) (first : Bool) (t : F) (m : Msg) (o : Output F)
      → (take_msg fl cp decode now established first t m o).printed
        ≡ o.printed ++ printed_of established first t m
  unfolding take_msg print
  take_msg-printed established false t m o = measure-printed t m _
  take_msg-printed established true t m o =
      measure-printed t m _ ∙ append_assoc o.printed (connected established m.from ∷ []) _

  shown-step :
      (established : F) (first : Bool) (i : ℕ) (from : Str) (m : Msg) (ms : List Msg)
      (before : List (Printed F))
      → (before ++ printed_of established first (now i) m)
          ++ shown now established false (i + 1) m.from ms
        ≡ before ++ shown now established first i from (m ∷ ms)
  unfolding shown
  shown-step established false i from m ms before = append_assoc before _ _
  shown-step established true i from m ms before = append_assoc before _ _

  request_loop-shown :
      (fuel i : ℕ) (established : F) (first : Bool) (old : Msg) (ms : List Msg) (o : Output F)
      → length ms < fuel
      → (o' : Output F) × (request_loop fl cp decode now fuel established first old i (stream ms) o
          ≡ ok o')
        × (o'.printed ≡ o.printed ++ shown now established first i old.from ms)
  unfolding request_loop shown print
  request_loop-shown zero i established first old ms o l = absurd (omega arith)
  request_loop-shown (suc fuel) i established first old [] o l =
      let over = ends old in
      (print fl cp decode now (disconnected (now i) old.from) o, ground arith, refl)
  request_loop-shown (suc fuel) i established first old (m ∷ ms) o l =
      let (b, e) = marshals m in
      let next = reads old m b (stream ms) e in
      let after = take_msg fl cp decode now established first (now i) m o in
      let (o', f, p) = request_loop-shown fuel (i + 1) established false m ms after (omega arith) in
      (
        o',
        ground (arith, f, next),
        p
            ∙ ap (λ l. l ++ shown now established false (i + 1) m.from ms)
                (take_msg-printed established first (now i) m o)
            ∙ shown-step established first i old.from m ms o.printed,
      )

  -- If all writes of a client of the logger succeed, it ends without an error, and the logger,
  -- with more fuel than lines, prints of its connection the second field of each line with two
  -- fields, with the name of the client, in order, after a line for the connection if there is
  -- such a line, and then the end of the connection. JSON marshals every message, and the decoder
  -- reads it back and finds the end of the input.
  pub events_are_printed :
      (name : Str) (lines : List Str) (n fuel : ℕ) (established : F)
      → length lines ≤ n
      → length lines < fuel
      → ((copy_stdin_to_tcp c none (takes_all n) name lines).1 ≡ none)
        × (ms : List Msg) × AreEvents name lines ms
        × (o : Output F) × (handle_request fl cp decode now fuel established
              (copy_stdin_to_tcp c none (takes_all n) name lines).0
            ≡ ok o)
        × (o.printed ≡ shown now established true 0 [] ms)
  unfolding copy_stdin_to_tcp handle_request
  events_are_printed name lines n fuel established l k =
      let sent = copy_loop-stream name n lines [] l in
      let ms = msgs_of name lines in
      let (o, e, p) =
        request_loop-shown fuel 0 established true
          (record { from = []; timestamp = []; payload = [] }) ms
          (record { printed = []; logged = [] }) (omega (arith, msgs_of-length name lines)) in
      (
        ap (λ r. r.1) sent,
        ms,
        msgs_of-AreEvents name lines,
        o,
        ap (λ r. handle_request fl cp decode now fuel established r.0) sent ∙ e,
        p,
      )
