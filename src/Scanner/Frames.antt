-- ===== src/Scanner/Frames.antt =====
-- What a scanner reads of the frames that lib/mp1/multicast/client.go writes.
use cs425_mps.Base.{
  ℕ, ◌+◌, ◌≤◌, ◌<◌, Option, none, List, [], ◌∷◌, ◌++◌, ◌≡◌, refl, sym, ap, ◌∙◌, length, length-snoc,
  ◌==◌, All, false, arith,
}
use mathlib.Core.List.{append_assoc, append-nil}
use cs425_mps.Base.Result.{Error}
use cs425_mps.Codec.{Bytes}
use cs425_mps.Client.{frame}
use cs425_mps.Scanner.{drop_cr, max_line, scan_loop, scan_lines}

-- A text on one line: no newline, no carriage return at its end, and short enough for the scanner.
pub record IsLine (b : Bytes) : Type 0 where
  pub one : All (λ c. c == b'\n' ≡ false) b
  pub bare : drop_cr b ≡ b
  pub short : length b ≤ max_line

abbrev pub frames : List Bytes → Bytes
frames [] = []
frames (b ∷ bs) = frame b ++ frames bs

abbrev pub cons_line : Bytes → List Bytes × Option Error → List Bytes × Option Error
cons_line b r = (b ∷ r.0, r.1)

scan_loop-newline :
    (line input : Bytes)
    → scan_loop line (b'\n' ∷ input) ≡ cons_line (drop_cr line) (scan_loop [] input)
unfolding scan_loop
scan_loop-newline [] input = refl
scan_loop-newline (c ∷ line) input = refl

scan_loop-step :
    (line : Bytes) (c : ℕ) (input : Bytes)
    → c == b'\n' ≡ false
    → length line < max_line
    → scan_loop line (c ∷ input) ≡ scan_loop (line ++ c ∷ []) input
unfolding scan_loop
scan_loop-step [] c input other room = ground arith
scan_loop-step (d ∷ line) c input other room = ground arith

scan_loop-text :
    (line b input : Bytes)
    → All (λ c. c == b'\n' ≡ false) b
    → length line + length b ≤ max_line
    → scan_loop line (b ++ b'\n' ∷ input) ≡ cons_line (drop_cr (line ++ b)) (scan_loop [] input)
scan_loop-text line [] input one short =
    scan_loop-newline line input
    ∙ ap (λ l. cons_line (drop_cr l) (scan_loop [] input)) (sym (append-nil line))
scan_loop-text line (c ∷ b) input one short =
    scan_loop-step line c (b ++ b'\n' ∷ input) one.0 (omega (arith, short))
    ∙ scan_loop-text (line ++ c ∷ []) b input one.1 (omega (arith, short, length-snoc line c))
    ∙ ap (λ l. cons_line (drop_cr l) (scan_loop [] input)) (append_assoc line (c ∷ []) b)

pub scan_lines-frame :
    (b input : Bytes) → IsLine b → scan_lines (frame b ++ input) ≡ cons_line b (scan_lines input)
unfolding scan_lines
scan_lines-frame b input l =
    ap (scan_loop []) (append_assoc b (b'\n' ∷ []) input)
    ∙ scan_loop-text [] b input l.one (omega (arith, l.short))
    ∙ ap (λ x. cons_line x (scan_loop [] input)) l.bare

-- The frames of the client are the lines of the server.
pub scan_lines-frames : (bs : List Bytes) → All IsLine bs → scan_lines (frames bs) ≡ (bs, none)
unfolding scan_lines scan_loop
scan_lines-frames [] l = refl
scan_lines-frames (b ∷ bs) l =
    scan_lines-frame b (frames bs) l.0 ∙ ap (cons_line b) (scan_lines-frames bs l.1)
