-- ===== src/Dnsutil/Strings/Splitting.antt =====
-- SplitForTxt cuts a text into strings that fit a TXT record.
use addr_tools.Prelude.{
  ltb, ltb→lt, lt→ltb, Bool-cases, length, take, drop, All, take-append-drop, length-take,
  length-drop, Bytes, ℕ, zero, suc, ◌+◌, ◌/◌, ◌≤◌, ◌<◌, ◌≡◌, refl, ◌⊎◌, inl, inr, List, [], ◌∷◌,
  ◌++◌, append-nil, arith,
}
use addr_tools.Dnsutil.Strings.{last_piece, split_loop, split_for_txt}

unfoldable pub flatten : List Bytes → Bytes
flatten [] = []
flatten (p ∷ ps) = p ++ flatten ps

flatten_cons : (p : Bytes) (ps : List Bytes) → flatten (p ∷ ps) ≡ p ++ flatten ps
unfolding flatten
flatten_cons p ps = refl

flatten-last_piece : (s : Bytes) → flatten (last_piece s) ≡ s
unfolding flatten
flatten-last_piece [] = refl
flatten-last_piece (c ∷ s) = append-nil (c ∷ s)

split_loop_long :
    (fuel : ℕ) (s : Bytes)
    → 255 < length s
    → split_loop (suc fuel) s ≡ take 255 s ∷ split_loop fuel (drop 255 s)
unfolding split_loop
split_loop_long fuel s h = rw (lt→ltb 255 (length s) h)

split_loop_short : (fuel : ℕ) (s : Bytes) → length s ≤ 255 → split_loop (suc fuel) s ≡ last_piece s
unfolding split_loop
split_loop_short fuel s h = ground arith

-- Which of the two cases the loop is in.
long_or_short : (s : Bytes) → (255 < length s) ⊎ (length s ≤ 255)
long_or_short s = elim (Bool-cases (ltb 255 (length s))) [
  | inl e ↦ inl (ltb→lt 255 (length s) e)
  | inr e ↦ inr (ground arith)
]

flatten-split_loop : (fuel : ℕ) (s : Bytes) → length s ≤ fuel → flatten (split_loop fuel s) ≡ s
flatten-split_loop zero [] h = unfold split_loop flatten in refl
flatten-split_loop zero (c ∷ s) h = absurd (omega arith)
flatten-split_loop (suc fuel) s h = elim (long_or_short s) [
  | inl long ↦ rw (split_loop_long fuel s long) (
      rw
        (
          flatten_cons (take 255 s) (split_loop fuel (drop 255 s)),
          flatten-split_loop fuel (drop 255 s) (omega (arith, length-drop 255 s)),
        )
        (take-append-drop 255 s))
  | inr short ↦ rw (split_loop_short fuel s short) (flatten-last_piece s)
]

-- A piece that a TXT record can hold.
abbrev pub Fits : Bytes → Type 0
Fits p = (1 ≤ length p) × (length p ≤ 255)

last_piece-Fits : (s : Bytes) → length s ≤ 255 → All Fits (last_piece s)
last_piece-Fits [] h = tt
last_piece-Fits (c ∷ s) h = ((omega arith, h), tt)

split_loop-Fits : (fuel : ℕ) (s : Bytes) → All Fits (split_loop fuel s)
split_loop-Fits zero s = unfold split_loop in tt
split_loop-Fits (suc fuel) s = elim (long_or_short s) [
  | inl long ↦ rw (split_loop_long fuel s long) (
    (omega (arith, length-take 255 s), omega (arith, length-take 255 s)),
    split_loop-Fits fuel (drop 255 s),
  )
  | inr short ↦ rw (split_loop_short fuel s short) (last_piece-Fits s short)
]

length-last_piece : (s : Bytes) → length s ≤ 255 → length (last_piece s) ≡ (length s + 254) / 255
length-last_piece [] h = refl
length-last_piece (c ∷ s) h = omega arith

length-split_loop :
    (fuel : ℕ) (s : Bytes) → length s ≤ fuel → length (split_loop fuel s) ≡ (length s + 254) / 255
length-split_loop zero [] h = unfold split_loop in refl
length-split_loop zero (c ∷ s) h = absurd (omega arith)
length-split_loop (suc fuel) s h = elim (long_or_short s) [
  | inl long ↦ rw (split_loop_long fuel s long) (
      omega (
        arith,
        length-drop 255 s,
        length-split_loop fuel (drop 255 s) (omega (arith, length-drop 255 s)),
      ))
  | inr short ↦ rw (split_loop_short fuel s short) (length-last_piece s short)
]

-- SplitForTxt loses nothing and reorders nothing, and on a text that is not empty it gives the
-- fewest pieces of at most 255 bytes, none of them empty.
pub split_for_txt_lem :
    (s : Bytes)
    → 1 ≤ length s
    → (flatten (split_for_txt s) ≡ s)
      × All Fits (split_for_txt s)
      × (length (split_for_txt s) ≡ (length s + 254) / 255)
split_for_txt_lem s h = elim (long_or_short s) [
  | inl long ↦ rw (split_long s long) (
    flatten-split_loop (length s) s (omega arith),
    split_loop-Fits (length s) s,
    length-split_loop (length s) s (omega arith),
  )
  | inr short ↦
      rw (split_short s short) (unfold flatten in (append-nil s, ((h, short), tt), omega arith))
]
  where
    split_long : (t : Bytes) → 255 < length t → split_for_txt t ≡ split_loop (length t) t
    split_long t l = unfold split_for_txt in ground arith

    split_short : (t : Bytes) → length t ≤ 255 → split_for_txt t ≡ t ∷ []
    split_short t l = unfold split_for_txt in ground arith

-- An empty text becomes one empty string.
pub split_for_txt_nil : split_for_txt [] ≡ [] ∷ []
unfolding split_for_txt
split_for_txt_nil = refl
