-- ===== src/Prelude/Text.antt =====
-- Text as the code builds and tests it: templates, `join`, decimal numbers, patterns of characters.
use Prim.Native.Nat.{ℕ, zero, suc, ◌+◌, ◌/◌, ◌%◌}
use Prim.Native.Char.{code}
use Prim.Native.String.{String, ◌++◌}
use mathlib.Core.Bool.{Bool, true, false, ◌&&◌, ◌||◌}
use mathlib.Core.List.{List, [], ◌∷◌, map}
use chain_port.Prelude.Tests.{leb, ltb, ◌==◌, if◌then◌else◌}
use chain_port.Prelude.Lists.{length, all}

-- A template literal, by its parts.
unfoldable pub template : List String → String
template [] = ""
template (part ∷ parts) = part ++ template parts

-- `parts.join(separator)`
unfoldable pub join : String → List String → String
join separator [] = ""
join separator (part ∷ []) = part
join separator (part ∷ rest) = part ++ (separator ++ join separator rest)

abbrev pub codes : String → List ℕ
codes String.[] = []
codes (String.◌∷◌ c s) = code c ∷ codes s

-- One decimal digit.
digit : ℕ → String
digit zero = "0"
digit (suc zero) = "1"
digit (suc (suc zero)) = "2"
digit (suc (suc (suc zero))) = "3"
digit (suc (suc (suc (suc zero)))) = "4"
digit (suc (suc (suc (suc (suc zero))))) = "5"
digit (suc (suc (suc (suc (suc (suc zero)))))) = "6"
digit (suc (suc (suc (suc (suc (suc (suc zero))))))) = "7"
digit (suc (suc (suc (suc (suc (suc (suc (suc zero)))))))) = "8"
digit _ = "9"

-- `String(n)` of a whole number. A round drops a digit, so `n + 1` rounds are enough.
decimal_from : ℕ → ℕ → String
decimal_from zero n = ""
decimal_from (suc fuel) n =
    let rest = decimal_from fuel (n / 10) ++ digit (n % 10) in if ltb n 10 then digit n else rest

unfoldable pub decimal : ℕ → String
unfolding decimal_from digit
decimal n = decimal_from (suc n) n

abbrev pub is_hex_digit : ℕ → Bool
is_hex_digit c =
    (leb b'0' c && leb c b'9') || (leb b'a' c && leb c b'f') || (leb b'A' c && leb c b'F')

is_address : List ℕ → Bool
is_address (zero_digit ∷ x ∷ rest) =
    (zero_digit == b'0') && (x == b'x') && (length rest == 40) && all is_hex_digit rest
is_address _ = false

-- `/^0x[a-fA-F0-9]{40}$/.test(s)`
unfoldable pub address_pattern : String → Bool
unfolding is_address
address_pattern s = is_address (codes s)

-- The letters that the flag `i` joins are those of ASCII.
abbrev pub lower : ℕ → ℕ
lower c = if leb b'A' c && leb c b'Z' then c + 32 else c

pub begins : List ℕ → List ℕ → Bool
begins [] s = true
begins (c ∷ cs) [] = false
begins (c ∷ cs) (d ∷ s) = (c == d) && begins cs s

pub contains : List ℕ → List ℕ → Bool
unfolding begins
contains p [] = begins p []
contains p (c ∷ s) = begins p (c ∷ s) || contains p s

-- `/p/i.test(s)` for a pattern of plain characters.
unfoldable pub contains_ignoring_case : String → String → Bool
unfolding contains
contains_ignoring_case p s = contains (map lower (codes p)) (map lower (codes s))

-- `s.replaceAll("-", "_")`
unfoldable pub replace_dashes : String → String
replace_dashes String.[] = ""
replace_dashes (String.◌∷◌ c s) =
    let rest = replace_dashes s in if code c == b'-' then "_" ++ rest else String.◌∷◌ c rest
