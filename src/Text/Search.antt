-- ===== src/Text/Search.antt =====
-- `contains` and `has_prefix` against what they mean.
use telegram_remote_terminal.Prelude.{
  ◌≡◌, refl, ◌↔◌, inl, inr, true, [], ◌∷◌, ◌++◌, arith, Bytes, Bool-cases, ap,
}
use telegram_remote_terminal.Text.{has_prefix, contains, skip, trim_prefix}

-- `d` stands in `s`, with `pre` before it and `post` behind it.
abbrev pub Within : Bytes → Bytes → Type 0
Within d s = (pre : Bytes) × (post : Bytes) × (s ≡ pre ++ (d ++ post))

abbrev pub Begins : Bytes → Bytes → Type 0
Begins p s = (post : Bytes) × (s ≡ p ++ post)

has_prefix_sound : (s p : Bytes) → has_prefix s p ≡ true → Begins p s
unfolding has_prefix
has_prefix_sound s [] h = (s, refl)
has_prefix_sound [] (p ∷ ps) h = cc
has_prefix_sound (c ∷ s) (p ∷ ps) h =
    let (post, e) = has_prefix_sound s ps (ground arith) in (post, ground arith)

pub has_prefix-append : (p post : Bytes) → has_prefix (p ++ post) p ≡ true
unfolding has_prefix
has_prefix-append [] post = refl
has_prefix-append (c ∷ p) post = ground (arith, has_prefix-append p post)

pub has_prefix_iff : (s p : Bytes) → (has_prefix s p ≡ true) ↔ Begins p s
has_prefix_iff s p = (has_prefix_sound s p, λ (post, e). rw e (has_prefix-append p post))

contains_sound : (s d : Bytes) → contains s d ≡ true → Within d s
unfolding contains
contains_sound [] d h = let (post, e) = has_prefix_sound [] d h in ([], post, e)
contains_sound (c ∷ s) d h = elim (Bool-cases (has_prefix (c ∷ s) d)) [
  | inl here ↦ let (post, e) = has_prefix_sound (c ∷ s) d here in ([], post, e)
  | inr later ↦
      let (pre, post, e) = contains_sound s d (ground arith) in (c ∷ pre, post, ap (◌∷◌ c) e)
]

contains_here : (d post : Bytes) → contains (d ++ post) d ≡ true
unfolding contains has_prefix
contains_here [] [] = refl
contains_here [] (c ∷ post) = refl
contains_here (c ∷ d) post = ground (arith, has_prefix-append d post)

contains_complete : (pre d post : Bytes) → contains (pre ++ (d ++ post)) d ≡ true
unfolding contains
contains_complete [] d post = contains_here d post
contains_complete (c ∷ pre) d post = ground (arith, contains_complete pre d post)

pub contains_iff : (s d : Bytes) → (contains s d ≡ true) ↔ Within d s
contains_iff s d = (contains_sound s d, λ (pre, post, e). rw e (contains_complete pre d post))

skip-append : (p s : Bytes) → skip p (p ++ s) ≡ s
unfolding skip
skip-append [] s = refl
skip-append (c ∷ p) s = skip-append p s

pub trim_prefix-append : (p s : Bytes) → trim_prefix (p ++ s) p ≡ s
unfolding trim_prefix
trim_prefix-append p s = rw has_prefix-append (skip-append p s)
