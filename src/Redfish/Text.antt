-- ===== src/Redfish/Text.antt =====
-- strconv.Atoi and strings.Contains, on the code points of a text.
use Prim.Native.Char.{code}
use text.Mathlib.Text.{find?}
use metal_operator.Base.{
  ℕ, ◌+◌, ◌-◌, ◌*◌, String, Bool, false, ◌&&◌, Option, none, some, List, [], ◌∷◌, leb,
  if◌then◌else◌, is_some,
}

abbrev pub codes : String → List ℕ
codes String.[] = []
codes (String.◌∷◌ c s) = code c ∷ codes s

-- strings.Contains(s, part)
abbrev pub contains : String → String → Bool
contains s part = is_some (find? s part)

abbrev same : ℕ → ℕ → Bool
same a b = leb a b && leb b a

abbrev is_digit : ℕ → Bool
is_digit c = leb b'0' c && leb c b'9'

-- The number that decimal digits spell after those that spelled `acc`.
unfoldable pub decimal : ℕ → List ℕ → Option ℕ
decimal acc [] = some acc
decimal acc (c ∷ s) =
    let rest = decimal (acc * 10 + (c - b'0')) s in if is_digit c then rest else none

unfoldable pub within : ℕ → List ℕ → Bool
unfolding decimal
within bound [] = false
within bound (c ∷ s) = elim (decimal 0 (c ∷ s)) [ none ↦ false | some n ↦ leb n bound ]

-- Whether strconv.Atoi reads the text: a sign at most, then digits, within 64 bits.
unfoldable pub is_integer : List ℕ → Bool
unfolding within
is_integer [] = false
is_integer (c ∷ s) =
    if same c b'-'
    then within 9223372036854775808 s
    else if same c b'+'
    then within 9223372036854775807 s
    else within 9223372036854775807 (c ∷ s)

-- `_, err := strconv.Atoi(s); err == nil`
unfoldable pub atoi_reads : String → Bool
unfolding is_integer
atoi_reads s = is_integer (codes s)
