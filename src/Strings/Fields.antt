-- ===== src/Strings/Fields.antt =====
-- `Fields` splits what spaces join.
use mathlib.Core.List.{append_assoc, append-nil}
use cs425_mps.Base.{◌≡◌, refl, ◌∙◌, ◌≢◌, List, [], ◌∷◌, ◌++◌}
use cs425_mps.Base.Text.{Str}
use cs425_mps.Strings.{flush, fields_loop, fields}
use cs425_mps.Strings.Number.{IsWord}

-- A word is added to the field that is being read.
fields_loop-word :
    (field word rest : Str)
    → IsWord word
    → fields_loop field (word ++ rest) ≡ fields_loop (field ++ word) rest
unfolding fields_loop
fields_loop-word field [] rest h = rw (append-nil field)
fields_loop-word field (c ∷ word) rest h =
    rw (h.0)
      (fields_loop-word (field ++ c ∷ []) word rest h.1 ∙ (rw (append_assoc field (c ∷ []) word)))

flush-ne_nil : (s : Str) (rest : List Str) → s ≢ [] → flush s rest ≡ s ∷ rest
unfolding flush
flush-ne_nil [] rest h = absurd (h refl)
flush-ne_nil (c ∷ s) rest h = refl

-- The first of several words.
pub fields_cons :
    (word rest : Str) → IsWord word → word ≢ [] → fields (word ++ b' ' ∷ rest) ≡ word ∷ fields rest
unfolding fields
fields_cons word rest h ne =
    fields_loop-word [] word (b' ' ∷ rest) h ∙ flush-ne_nil word (fields_loop [] rest) ne

-- The last word.
pub fields_last : (word : Str) → IsWord word → word ≢ [] → fields word ≡ word ∷ []
unfolding fields
fields_last word h ne =
    let whole = fields_loop-word [] word [] h in
    (rw (append-nil word) at whole) ∙ flush-ne_nil word [] ne
