-- ===== src/CInterface/Texts.antt =====
-- `nil_service_id_to_string` of src/src/c/service.cpp, which writes the text of an identity to a buffer.
use nil_service.Common.{
  ℕ, suc, ◌-◌, ◌≤◌, ◌<◌, ◌≡◌, refl, ap, ◌∙◌, inl, inr, Option, none, some, ◌∷◌, ◌++◌, arith, Bytes,
  copy_at, length, take, drop, length-take-le, take-whole, copy_at-start, copy_at-none,
  copy_at-next, copy_at-full, u64_mod, Bool-cases, ltb, ltb→lt, ltb→le, sub64, [], ◌>>=◌,
}
use mathlib.Core.Option
use nil_service.CInterface.{CId, to_cpp_id, id_to_string, copy}

-- The byte behind what has been copied.
abbrev pub ended : Bytes × ℕ → Option (Bytes × ℕ)
ended copied = Option.map (λ b. (b, copied.1)) (copy_at copied.1 (0 ∷ []) copied.0)

ended-next :
    (s buffer : Bytes)
    → length s < length buffer
    → (copy_at 0 s buffer >>= λ b. ended (b, length s))
      ≡ some (s ++ 0 ∷ drop (suc (length s)) buffer, length s)
ended-next s buffer h = rw (copy_at-start s buffer (omega arith), copy_at-next 0 s buffer h) refl

ended-full :
    (s buffer : Bytes)
    → length buffer ≤ length s
    → (copy_at 0 s buffer >>= λ b. ended (b, length s)) ≡ none
ended-full s buffer h = elim (Bool-cases (ltb (length buffer) (length s))) [
  | inl shorter ↦ rw (copy_at-none s buffer (ltb→lt (length buffer) (length s) shorter)) refl
  | inr fits ↦
      rw
        (copy_at-start s buffer (ltb→le (length buffer) (length s) fits), copy_at-full 0 s buffer h)
        refl
]

bind-map :
    {A B C : Type 0} (o : Option A) (f : A → B) (g : B → Option C)
    → (Option.map f o >>= g) ≡ (o >>= λ a. g (f a))
bind-map none f g = refl
bind-map (some a) f g = refl

module _ (text : ℕ → ℕ → Bytes) (id : CId) where
  -- The text of an identity.
  abbrev pub text_of : Bytes
  text_of = text id.pointer id.id

  id_to_string-copy :
      (buffer : Bytes) (size : ℕ)
      → id_to_string text id buffer size
        ≡ (let s = take (sub64 size 1) text_of in copy_at 0 s buffer >>= λ b. ended (b, length s))
  unfolding id_to_string copy to_cpp_id
  id_to_string-copy buffer size =
      let s = take (sub64 size 1) text_of in
      bind-map (copy_at 0 s buffer) (λ b. (b, length s)) ended

  sub64-below : (size : ℕ) → 0 < size → size < u64_mod → sub64 size 1 ≡ size - 1
  sub64-below size pos small = omega arith

  -- With a size of at least one byte and a buffer that has it, the text is written to the buffer, cut to
  -- one byte less than the size, with a zero byte behind it; the rest of the buffer stays, and the length
  -- of what is written before the zero byte is returned.
  pub id_to_string_lem :
      (buffer : Bytes) (size : ℕ)
      → 0 < size
      → size ≤ length buffer
      → size < u64_mod
      → id_to_string text id buffer size
        ≡ some (
          take (size - 1) text_of ++ 0 ∷ drop (suc (length (take (size - 1) text_of))) buffer,
          length (take (size - 1) text_of),
        )
  id_to_string_lem buffer size pos fits small =
      id_to_string-copy buffer size
      ∙ ap (λ n. let s = take n text_of in copy_at 0 s buffer >>= λ b. ended (b, length s))
          (sub64-below size pos small)
      ∙ ended-next (take (size - 1) text_of) buffer
          (omega (arith, length-take-le (size - 1) text_of))

  -- With a size of 0 the text is written whole: past the end of a buffer that is not longer than it.
  pub id_to_string-overflows :
      (buffer : Bytes)
      → length buffer ≤ length text_of
      → length text_of < u64_mod
      → id_to_string text id buffer 0 ≡ none
  id_to_string-overflows buffer short small =
      id_to_string-copy buffer 0
      ∙ ap (λ s. copy_at 0 s buffer >>= λ b. ended (b, length s))
          (take-whole (sub64 0 1) text_of (omega arith))
      ∙ ended-full text_of buffer short
