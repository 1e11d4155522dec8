-- ===== src/Telegram/Text.antt =====
-- What the commands of src/adapter/outbound/notifier/telegram/command.rs use of Rust's `str`. A text is
-- the list of its code points.
use Prim.Native.Char.{code}
use Prim.Native.String.{String}
use edgelord.Common.{
  ℕ, ◌≡◌, ◌∙◌, ap, ◌↔◌, Bool, true, false, ◌||◌, ◌&&◌, List, [], ◌∷◌, ◌++◌, leb, nat_beq, Eq,
  if◌then◌else◌, is_empty, arith, All,
}
use mathlib.Core.List.{append-nil, append_assoc}

abbrev pub Text : Type 0
Text = List ℕ

-- The code points of a literal.
abbrev pub codes : String → Text
codes String.[] = []
codes (String.◌∷◌ c s) = code c ∷ codes s

abbrev pub same_text : Text → Text → Bool
same_text [] [] = true
same_text [] (d ∷ ds) = false
same_text (c ∷ cs) [] = false
same_text (c ∷ cs) (d ∷ ds) = nat_beq c d && same_text cs ds

pub same_text_iff : (s t : Text) → (same_text s t ≡ true) ↔ (s ≡ t)
same_text_iff [] [] = ground arith
same_text_iff [] (d ∷ ds) = ground arith
same_text_iff (c ∷ cs) [] = ground arith
same_text_iff (c ∷ cs) (d ∷ ds) = ground (arith, same_text_iff cs ds)

instance abbrev pub text_eq : Eq Text
text_eq = record { same = same_text; same_iff = same_text_iff }

-- `char::is_whitespace`, Unicode's White_Space.
unfoldable pub is_whitespace : ℕ → Bool
is_whitespace c =
    (leb 9 c && leb c 13)
    || nat_beq c 32
    || nat_beq c 133
    || nat_beq c 160
    || nat_beq c 5760
    || (leb 8192 c && leb c 8202)
    || nat_beq c 8232
    || nat_beq c 8233
    || nat_beq c 8239
    || nat_beq c 8287
    || nat_beq c 12288

-- `str::split_whitespace`, after the letters of a word.
unfoldable pub words_from : Text → Text → List Text
words_from word [] = if is_empty word then [] else word ∷ []
words_from word (c ∷ cs) = elim (is_whitespace c) [
  | true ↦ let rest = words_from [] cs in if is_empty word then rest else word ∷ rest
  | false ↦ words_from (word ++ (c ∷ [])) cs
]

abbrev pub split_whitespace : Text → List Text
split_whitespace = words_from []

-- The text before the first `@`, all of it if there is none.
unfoldable pub before_at : Text → Text
before_at [] = []
before_at (c ∷ cs) = let rest = before_at cs in if nat_beq c 64 then [] else c ∷ rest

-- A text with no white space is one word.
pub words_from_solid :
    (word t : Text)
    → is_empty (word ++ t) ≡ false
    → All (λ c. is_whitespace c ≡ false) t
    → words_from word t ≡ (word ++ t) ∷ []
unfolding words_from
words_from_solid word [] h solid = ground (arith, h, append-nil word)
words_from_solid word (c ∷ cs) h (first, rest) =
    let moved = append_assoc word (c ∷ []) cs in
    let later = words_from_solid (word ++ (c ∷ [])) cs (ap is_empty moved ∙ h) rest in
    ground (arith, first, later, moved)
