-- ===== src/Base/Text.antt =====
-- JavaScript strings as lists of code units, byte arrays, and the built-in conversions to text
-- that the program uses: template literals over integers, hexadecimal, and `toISOString`.
use Prim.Native.Nat.{ℕ, zero, suc, ◌+◌, ◌-◌, ◌*◌, ◌/◌, ◌%◌}
use Prim.Native.Char.{code}
use Prim.Native.String.{String}
use mathlib.Core.Bool.{Bool, true, false}
use mathlib.Core.List.{List, [], ◌∷◌, ◌++◌}
use ppv.Base.Tests.{ltb, leb, nat_beq, if◌then◌else◌}
use ppv.Base.Lists.{length, replicate}
use ppv.Base.Int.{ℤ, pos, negsuc}

abbrev pub Text : Type 0
Text = List ℕ

abbrev pub Bytes : Type 0
Bytes = List ℕ

-- The code units of an ASCII literal.
abbrev pub codes : String → Text
codes String.[] = []
codes (String.◌∷◌ c s) = code c ∷ codes s

decimal_digits : ℕ → ℕ → Text → Text
decimal_digits zero n acc = acc
decimal_digits (suc f) n acc =
    let rest = decimal_digits f (n / 10) ((48 + n % 10) ∷ acc) in
    if ltb n 10 then (48 + n) ∷ acc else rest

-- `${n}` and `String(n)`. A number has at most as many digits as its value, and one more.
unfoldable pub decimal : ℕ → Text
unfolding decimal_digits
decimal n = decimal_digits (suc n) n []

unfoldable pub decimal_ℤ : ℤ → Text
decimal_ℤ (pos n) = decimal n
decimal_ℤ (negsuc n) = 45 ∷ decimal (suc n)

-- `padStart(width, "0")`.
unfoldable pub pad_start : ℕ → Text → Text
pad_start width t = replicate (width - length t) 48 ++ t

abbrev pub hex_digit : ℕ → ℕ
hex_digit d = if ltb d 10 then 48 + d else 87 + d

-- `Buffer.toString("hex")`, and the `toString(16).padStart(2, "0")` of a byte.
unfoldable pub hex : Bytes → Text
hex [] = []
hex (b ∷ bs) = hex_digit (b / 16) ∷ hex_digit (b % 16) ∷ hex bs

-- The civil date of a day number counted from 1970-01-01, in the proleptic Gregorian calendar:
-- eras of 146097 days that begin on 1 March.
unfoldable pub civil : ℕ → ℕ × ℕ × ℕ
civil day =
    let z = day + 719468 in
    let era = z / 146097 in
    let doe = z % 146097 in
    let yoe = (doe + doe / 36524 - doe / 1460 - doe / 146096) / 365 in
    let doy = doe + yoe / 100 - 365 * yoe - yoe / 4 in
    let mp = (5 * doy + 2) / 153 in
    let d = doy + 1 - (153 * mp + 2) / 5 in
    let m = if ltb mp 10 then mp + 3 else mp - 9 in
    let y = yoe + era * 400 in (if leb m 2 then y + 1 else y, m, d)

-- Years up to 9999 have four digits, later ones a sign and six.
unfoldable pub year_text : ℕ → Text
unfolding pad_start
year_text y = if ltb y 10000 then pad_start 4 (decimal y) else 43 ∷ pad_start 6 (decimal y)

-- `new Date(seconds * 1000).toISOString()` for whole seconds since the epoch.
unfoldable pub iso_string : ℕ → Text
unfolding civil year_text pad_start
iso_string seconds =
    let (y, m, d) = civil (seconds / 86400) in
    let rest = seconds % 86400 in
    year_text y
    ++ 45
      ∷ (pad_start 2 (decimal m)
          ++ 45
            ∷ (pad_start 2 (decimal d)
                ++ 84
                  ∷ (pad_start 2 (decimal (rest / 3600))
                      ++ 58
                        ∷ (pad_start 2 (decimal (rest / 60 % 60))
                            ++ 58 ∷ (pad_start 2 (decimal (rest % 60)) ++ codes ".000Z")))))

-- A `Date` reaches 8.64e15 milliseconds, and `toISOString` throws past that.
abbrev pub max_date_seconds : ℕ
max_date_seconds = 8640000000000

-- `<` on strings: by code units, from the left.
unfoldable pub ltb_text : Text → Text → Bool
ltb_text xs [] = false
ltb_text [] (y ∷ ys) = true
ltb_text (x ∷ xs) (y ∷ ys) =
    let rest = ltb_text xs ys in if ltb x y then true else if nat_beq x y then rest else false
