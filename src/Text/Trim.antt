-- ===== src/Text/Trim.antt =====
-- Laws of `trim_space`.
use telegram_remote_terminal.Prelude.{
  ℕ, ◌≡◌, ◌<◌, refl, false, [], ◌∷◌, Bytes, arith, All, All-append, reverse,
}
use mathlib.Core.List.{reverse-reverse, reverse-cons}
use telegram_remote_terminal.Text.{
  ascii_space, last_space, strip, trim_left, trim_right, trim_space,
}

-- An ASCII byte that is no space.
abbrev pub IsPlain : ℕ → Type 0
IsPlain c = (ascii_space c ≡ false) × (c < 0x80)

trim_left-plain : (s : Bytes) → All IsPlain s → trim_left s ≡ s
unfolding trim_left
trim_left-plain [] h = refl
trim_left-plain (a ∷ []) h = ground arith
trim_left-plain (a ∷ b ∷ []) h = ground arith
trim_left-plain (a ∷ b ∷ c ∷ s) h = ground arith

strip-last_space-plain : (s : Bytes) → All IsPlain s → strip last_space 0 s ≡ s
unfolding strip last_space
strip-last_space-plain [] h = refl
strip-last_space-plain (a ∷ []) h = ground arith
strip-last_space-plain (a ∷ b ∷ []) h = ground arith
strip-last_space-plain (a ∷ b ∷ c ∷ s) h = ground arith

All-reverse : (s : Bytes) → All IsPlain s → All IsPlain (reverse s)
All-reverse [] h = tt
All-reverse (a ∷ s) h =
    rw reverse-cons (All-append IsPlain (reverse s) (a ∷ []) (All-reverse s h.1) (h.0, tt))

-- A text without spaces is left as it is.
pub trim_space-plain : (s : Bytes) → All IsPlain s → trim_space s ≡ s
unfolding trim_space trim_right
trim_space-plain s h =
    rw (trim_left-plain s h, strip-last_space-plain (reverse s) (All-reverse s h))
      (reverse-reverse s)
