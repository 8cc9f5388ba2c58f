-- ===== src/LogServer/Tests.antt =====
-- Two events and a line that is none, from a client to the logger.
use cs425_mps.Base.{
  ℕ, zero, suc, ◌+◌, ◌-◌, true, none, some, List, [], ◌∷◌, ◌++◌, ◌≡◌, refl, length, ap, ◌∙◌, arith,
}
use mathlib.Core.Path.{subst}
use mathlib.Core.List.{append_assoc}
use cs425_mps.Base.Text.{Str, codes}
use cs425_mps.Base.Run.{ok}
use cs425_mps.Base.Result.{Result, unmarshal_failed}
use cs425_mps.Codec.{Codec, Bytes}
use cs425_mps.Client.{frame}
use cs425_mps.LogClient.{Msg, copy_stdin_to_tcp}
use cs425_mps.LogServer.{Params, Floats, Decoded, decoded, eof, Output, handle_request}
use cs425_mps.LogServer.Events.{events_are_printed, takes_all, shown, AreEvents}

-- A text is written after its length.
abbrev text : Str → Bytes → Bytes
text s rest = length s ∷ (s ++ rest)

abbrev split : ℕ → Bytes → Str × Bytes
split zero b = ([], b)
split (suc n) [] = ([], [])
split (suc n) (c ∷ b) = let r = split n b in (c ∷ r.0, r.1)

abbrev untext : Bytes → Str × Bytes
untext [] = ([], [])
untext (n ∷ b) = split n b

split-append : (s b : Bytes) → split (length s) (s ++ b) ≡ (s, b)
split-append [] b = refl
split-append (c ∷ s) b = ap (λ r. (c ∷ r.0, r.1)) (split-append s b)

abbrev msg_codec : Codec Msg
msg_codec = record {
  marshal = λ m. Result.ok (text m.from (text m.timestamp (text m.payload [])));
  unmarshal = λ b. (record { from = b; timestamp = []; payload = [] }, some unmarshal_failed);
}

abbrev tail : Bytes → Bytes
tail [] = []
tail (c ∷ b) = b

abbrev read : Bytes → Decoded
read b =
    let r = untext b in
    let s = untext r.1 in
    let t = untext s.1 in decoded (record { from = r.0; timestamp = s.0; payload = t.0 }) (tail t.1)

abbrev decode : Msg → Bytes → Decoded
decode old [] = eof
decode old (c ∷ b) = read (c ∷ b)

marshals : (m : Msg) → (b : Bytes) × (msg_codec.marshal m ≡ Result.ok b)
marshals m = (_, refl)

untext-text : (s x y : Bytes) → untext (text s x ++ y) ≡ (s, x ++ y)
untext-text s x y = ap (split (length s)) (append_assoc s x y) ∙ split-append s (x ++ y)

read-text :
    (m : Msg) (y : Bytes)
    → read (text m.from (text m.timestamp (text m.payload [])) ++ b'\n' ∷ y) ≡ decoded m y
read-text m y = ground (
  arith,
  untext-text m.from (text m.timestamp (text m.payload [])) (b'\n' ∷ y),
  untext-text m.timestamp (text m.payload []) (b'\n' ∷ y),
  untext-text m.payload [] (b'\n' ∷ y),
)

reads :
    (old m : Msg) (b rest : Bytes)
    → msg_codec.marshal m ≡ Result.ok b
    → decode old (frame b ++ rest) ≡ decoded m rest
reads old m b rest e =
    let same : text m.from (text m.timestamp (text m.payload [])) ≡ b = ground arith in
    subst (λ b. decode old (frame b ++ rest) ≡ decoded m rest) same
      (ap (λ w. decode old (length m.from ∷ w))
          (append_assoc (m.from ++ text m.timestamp (text m.payload [])) (b'\n' ∷ []) rest)
        ∙ read-text m rest)

ends : (old : Msg) → decode old [] ≡ eof
ends old = refl

abbrev floats : Floats ℕ
floats = record {
  parse_float = λ s. some (length s);
  minus = λ a b. a - b;
  format_float = λ a. a ∷ [];
}

abbrev params_codec : Codec Params
params_codec = record {
  marshal = λ p. Result.ok p.size;
  unmarshal = λ b. (record { delay = []; timestamp = []; size = b }, none);
}

abbrev clock : ℕ → ℕ
clock i = i + 10

abbrev lines : List Str
lines = codes "1.5 a" ∷ codes "nonsense" ∷ codes "2.5 b" ∷ []

events_are_printed_example :
    ((copy_stdin_to_tcp msg_codec none (takes_all 3) (codes "n1") lines).1 ≡ none)
    × (ms : List Msg) × AreEvents (codes "n1") lines ms
    × (o : Output ℕ) × (handle_request floats params_codec decode clock 4 9
          (copy_stdin_to_tcp msg_codec none (takes_all 3) (codes "n1") lines).0
        ≡ ok o)
    × (o.printed ≡ shown clock 9 true 0 [] ms)
events_are_printed_example =
    events_are_printed floats params_codec decode clock msg_codec marshals reads ends (codes "n1")
      lines 3 4 9 (omega arith) (omega arith)
