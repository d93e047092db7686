-- ===== src/Base/Search.antt =====
-- JavaScript's searches in strings: `startsWith`, `includes`, the `i` flag of a regular expression,
-- the word boundary `\b`, `trim`, and `split(a).join(b)`.
use Prim.Native.Nat.{ℕ, zero, suc, ◌+◌, ◌-◌}
use mathlib.Core.Bool.{Bool, true, false, not, ◌&&◌, ◌||◌}
use mathlib.Core.List.{[], ◌∷◌, ◌++◌, reverse, map}
use ppv.Base.Tests.{leb, nat_beq, if◌then◌else◌}
use ppv.Base.Lists.{length, drop}
use ppv.Base.Text.{Text}

unfoldable pub starts_with : Text → Text → Bool
starts_with [] t = true
starts_with (p ∷ ps) [] = false
starts_with (p ∷ ps) (c ∷ cs) = nat_beq p c && starts_with ps cs

-- `text.includes(pattern)`, the pattern first.
unfoldable pub includes : Text → Text → Bool
unfolding starts_with
includes p [] = starts_with p []
includes p (c ∷ cs) = starts_with p (c ∷ cs) || includes p cs

unfoldable pub lower_case : ℕ → ℕ
lower_case c = if leb 65 c && leb c 90 then c + 32 else c

-- `/pattern/i.test(text)` for a pattern of lower-case ASCII letters, digits and spaces. The flag
-- identifies a letter with no character outside ASCII.
unfoldable pub includes_any_case : Text → Text → Bool
unfolding includes lower_case
includes_any_case p t = includes p (map lower_case t)

-- `\w`
unfoldable pub is_word : ℕ → Bool
is_word c = leb 48 c && leb c 57 || leb 65 c && leb c 90 || nat_beq c 95 || leb 97 c && leb c 122

-- `\b` behind a word: the text ends or goes on with another character.
unfoldable pub ends_word : Text → Bool
unfolding is_word
ends_word [] = true
ends_word (c ∷ cs) = not (is_word c)

-- `/\bword\b/.test(text)` for a word that is not empty; the first argument says whether a character
-- of a word stands before the text.
unfoldable pub has_word : Bool → Text → Text → Bool
unfolding starts_with ends_word is_word
has_word inside w [] = false
has_word inside w (c ∷ cs) =
    not inside && starts_with w (c ∷ cs) && ends_word (drop (length w) (c ∷ cs))
    || has_word (is_word c) w cs

-- The white space and the line ends that `trim` removes.
unfoldable pub is_space : ℕ → Bool
is_space c =
    leb 9 c && leb c 13
    || nat_beq c 32
    || nat_beq c 160
    || nat_beq c 5760
    || leb 8192 c && leb c 8202
    || nat_beq c 8232
    || nat_beq c 8233
    || nat_beq c 8239
    || nat_beq c 8287
    || nat_beq c 12288
    || nat_beq c 65279

unfoldable pub trim_start : Text → Text
unfolding is_space
trim_start [] = []
trim_start (c ∷ cs) = let rest = trim_start cs in if is_space c then rest else c ∷ cs

unfoldable pub trim : Text → Text
unfolding trim_start
trim t = reverse (trim_start (reverse (trim_start t)))

-- `text.split(found).join(put)` for a text to find that is not empty. The number is what is left of
-- an occurrence that the scan is inside.
replace_from : Text → Text → ℕ → Text → Text
unfolding starts_with
replace_from found put left [] = []
replace_from found put (suc left) (c ∷ cs) = replace_from found put left cs
replace_from found put zero (c ∷ cs) = elim (starts_with found (c ∷ cs)) [
  | true ↦ put ++ replace_from found put (length found - 1) cs
  | false ↦ c ∷ replace_from found put zero cs
]

unfoldable pub replace_all : Text → Text → Text → Text
unfolding replace_from
replace_all found put t = replace_from found put zero t
