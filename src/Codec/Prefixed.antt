-- ===== src/Codec/Prefixed.antt =====
-- A codec for the tests, for structs of two texts and a body: each text is written after its length.
use cs425_mps.Base.{
  ℕ, zero, suc, ◌≡◌, refl, sym, ap, ◌∙◌, Option, none, some, [], ◌∷◌, ◌++◌, length, take,
}
use cs425_mps.Base.Text.{Str}
use cs425_mps.Base.Result.{Error, ok, unmarshal_failed}
use cs425_mps.Codec.{Codec, Bytes, IsLossless}

abbrev drop : ℕ → Bytes → Bytes
drop zero bytes = bytes
drop (suc n) [] = []
drop (suc n) (b ∷ bytes) = drop n bytes

module _ {A : Type 0} (parts : A → Str × Str × Bytes) (make : Str → Str → Bytes → A) where
  abbrev read_rest : Str → Bytes → A × Option Error
  read_rest one [] = (make one [] [], some unmarshal_failed)
  read_rest one (n ∷ bytes) = (make one (take n bytes) (drop n bytes), none)

  abbrev read : Bytes → A × Option Error
  read [] = (make [] [] [], some unmarshal_failed)
  read (n ∷ bytes) = read_rest (take n bytes) (drop n bytes)

  abbrev write : Str × Str × Bytes → Bytes
  write (one, two, body) = length one ∷ (one ++ (length two ∷ (two ++ body)))

  abbrev pub prefixed : Codec A
  prefixed = record { marshal = λ a. ok (write (parts a)); unmarshal = read }

  take-append : (one two : Bytes) → take (length one) (one ++ two) ≡ one
  take-append [] two = refl
  take-append (b ∷ one) two = ap (λ bytes. b ∷ bytes) (take-append one two)

  drop-append : (one two : Bytes) → drop (length one) (one ++ two) ≡ two
  drop-append [] two = refl
  drop-append (b ∷ one) two = drop-append one two

  read-write : (p : Str × Str × Bytes) → read (write p) ≡ (make p.0 p.1 p.2, none)
  read-write (one, two, body) =
      rw
        (take-append one (length two ∷ (two ++ body)), drop-append one (length two ∷ (two ++ body)))
        (rw (take-append two body, drop-append two body) refl)

  pub prefixed-IsLossless :
      ((a : A) → make (parts a).0 (parts a).1 (parts a).2 ≡ a) → IsLossless prefixed
  prefixed-IsLossless same = record {
    marshals = λ a. (write (parts a), refl);
    reads_back = λ a bytes e.
        let whole : write (parts a) ≡ bytes = cc in
        ap read (sym whole) ∙ read-write (parts a) ∙ ap (λ x. (x, none)) (same a);
  }

abbrev pub plain_bytes : Codec Bytes
plain_bytes = record { marshal = λ b. ok b; unmarshal = λ b. (b, none) }
