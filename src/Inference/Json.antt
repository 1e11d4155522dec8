-- ===== src/Inference/Json.antt =====
-- `extract_json` of src/adapter/outbound/inference/inferrer.rs. A position counts code points here and
-- bytes in the source; the needles are ASCII, so that the same parts are cut out.
use edgelord.Common.{
  ℕ, suc, ◌+◌, ◌-◌, ◌≤◌, ◌<◌, ◌≡◌, ◌≢◌, ◌↔◌, Bool, true, false, ◌&&◌, [], ◌∷◌, Option, none, some,
  length, leb, nat_beq, if◌then◌else◌, arith, Option-cases, inl, inr,
}
use edgelord.Exchange.Pool.{take, drop}
use edgelord.Exchange.Pool.Chunks.{length-drop}
use edgelord.Telegram.Text.{Text, codes, is_whitespace}

unfoldable pub starts_with : Text → Text → Bool
starts_with [] t = true
starts_with (n ∷ ns) [] = false
starts_with (n ∷ ns) (c ∷ cs) = nat_beq n c && starts_with ns cs

-- `str::find`, for a needle that is not empty.
unfoldable pub find : Text → Text → Option ℕ
unfolding starts_with
find needle [] = none
find needle (c ∷ cs) =
    let later = find needle cs in
    if starts_with needle (c ∷ cs)
    then some 0
    else elim later [ none ↦ none | some i ↦ some (suc i) ]

-- `str::rfind` of a character.
unfoldable pub rfind : ℕ → Text → Option ℕ
rfind k [] = none
rfind k (c ∷ cs) = elim (rfind k cs) [
  | some i ↦ some (suc i)
  | none ↦ if nat_beq k c then some 0 else none
]

-- `&text[start..end]`, none where it panics.
unfoldable pub slice : ℕ → ℕ → Text → Option Text
slice start end t =
    if leb start end && leb end (length t) then some (take (end - start) (drop start t)) else none

unfoldable pub trim_start : Text → Text
trim_start [] = []
trim_start (c ∷ cs) = let rest = trim_start cs in if is_whitespace c then rest else c ∷ cs

unfoldable pub trim_end : Text → Text
trim_end [] = []
trim_end (c ∷ cs) = elim (trim_end cs) [
  | [] ↦ if is_whitespace c then [] else c ∷ []
  | d ∷ ds ↦ c ∷ d ∷ ds
]

pub data Extracted : Type 0 where
  found : (json : Text) → Extracted
  missing : Extracted
  panicked : Extracted

abbrev cut : (Text → Text) → Option Text → Extracted
cut f none = panicked
cut f (some t) = found (f t)

abbrev pub open_fence : Text
open_fence = codes "```json"

abbrev pub fence : Text
fence = codes "```"

-- `unwrap_or(text.len())`, with the offset of the match.
abbrev end_after : ℕ → Option ℕ → ℕ → ℕ
end_after offset none len = len
end_after offset (some i) len = offset + i

unfoldable pub in_fence : ℕ → Text → Extracted
unfolding trim_start trim_end
in_fence start t =
    cut (λ s. trim_start (trim_end s))
      (slice start (end_after start (find fence (drop start t)) (length t)) t)

unfoldable pub in_braces : Option ℕ → Text → Extracted
in_braces none t = missing
in_braces (some start) t = cut (λ s. s) (slice start (end_after 1 (rfind 125 t) (length t)) t)

unfoldable pub extract_json : Text → Extracted
extract_json t = elim (find open_fence t) [
  | some start ↦ in_fence (start + 7) t
  | none ↦ in_braces (find (codes "{") t) t
]

starts_with-length : (n t : Text) → starts_with n t ≡ true → length n ≤ length t
unfolding starts_with
starts_with-length [] t h = omega arith
starts_with-length (n ∷ ns) [] h = cc
starts_with-length (n ∷ ns) (c ∷ cs) h = ground (arith, starts_with-length ns cs)

-- Where a needle is found, it fits.
find_bound : (n t : Text) (i : ℕ) → find n t ≡ some i → i + length n ≤ length t
unfolding find
find_bound n [] i h = cc
find_bound n (c ∷ cs) i h = elim (Option-cases (find n cs)) [
  | inl e ↦ ground (arith, e, starts_with-length n (c ∷ cs))
  | inr (j, e) ↦ ground (arith, e, starts_with-length n (c ∷ cs), find_bound n cs j e)
]

rfind_bound : (k : ℕ) (t : Text) (i : ℕ) → rfind k t ≡ some i → i < length t
unfolding rfind
rfind_bound k [] i h = cc
rfind_bound k (c ∷ cs) i h = elim (Option-cases (rfind k cs)) [
  | inl e ↦ ground (arith, e)
  | inr (j, e) ↦ ground (arith, e, rfind_bound k cs j e)
]

slice_total :
    (start end : ℕ) (t : Text)
    → start ≤ end
    → end ≤ length t
    → (s : Text) × (slice start end t ≡ some s)
unfolding slice
slice_total start end t h k = (take (end - start) (drop start t), ground arith)

in_fence_total : (start : ℕ) (t : Text) → start ≤ length t → in_fence start t ≢ panicked
unfolding in_fence
in_fence_total start t h = elim (Option-cases (find fence (drop start t))) [
  | inl e ↦ let (s, cut) = slice_total start (length t) t h (omega arith) in ground (arith, e, cut)
  | inr (i, e) ↦
      let bound = find_bound fence (drop start t) i e in
      let (s, cut) =
        slice_total start (start + i) t (omega arith) (omega (arith, bound, length-drop start t)) in
      ground (arith, e, cut)
]

abbrev Crossed : Text → Type 0
Crossed t = (i : ℕ) × (j : ℕ) × (find (codes "{") t ≡ some i) × (rfind 125 t ≡ some j) × (suc j < i)

crossed_panics :
    (i j : ℕ) (t : Text) → suc j < i → rfind 125 t ≡ some j → in_braces (some i) t ≡ panicked
unfolding in_braces slice
crossed_panics i j t h e = ground (arith, e)

in_braces_panics : (t : Text) → in_braces (find (codes "{") t) t ≡ panicked → Crossed t
unfolding in_braces slice
in_braces_panics t h = elim (Option-cases (find (codes "{") t)) [
  | inl e ↦ absurd (ground (arith, e))
  | inr (i, e) ↦
      let bound = find_bound (codes "{") t i e in
      elim (Option-cases (rfind 125 t)) [
        | inl f ↦ absurd (ground (arith, e, f, bound))
        | inr (j, f) ↦ (i, j, e, f, ground (arith, e, f, bound, rfind_bound 125 t j f))
      ]
]

-- `extract_json` panics exactly for a text with no opening fence in which the last closing brace stands
-- before the first opening brace, and not directly before it.
pub extract_json_panics :
    (t : Text)
    → (extract_json t ≡ panicked) ↔ (
        (find open_fence t ≡ none)
        × ((i : ℕ) × (j : ℕ) × (find (codes "{") t ≡ some i)
            × (rfind 125 t ≡ some j)
            × (suc j < i)))
unfolding extract_json
extract_json_panics t = elim (Option-cases (find open_fence t)) [
  | inl e ↦ (
    λ h. (e, in_braces_panics t (rw (extract_json, e) at h)),
    λ (q, (i, j, f, g, crossed)). rw (extract_json, e, f) (crossed_panics i j t crossed g),
  )
  | inr (start, e) ↦
      let bound = find_bound open_fence t start e in
      let total = in_fence_total (start + 7) t bound in
      (λ h. absurd (total (rw (extract_json, e) at h)), λ (q, rest). cc)
]
