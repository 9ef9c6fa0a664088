-- ===== src/Mcp/Base64.antt =====
-- crates/epica-mcp/src/auth.rs, `base64url`, with a decoder of RFC 4648 to state what it computes. Text is its bytes;
-- shifts and masks of bytes are written as divisions and remainders.
use Prim.Native.Char.{Char, code}
use epica.Prelude.{
  leb, nat_beq, if◌then◌else◌, string_eq, nat_eq, list_eq, length, get_or, ℕ, zero, suc, ◌+◌, ◌-◌,
  ◌*◌, ◌/◌, ◌%◌, ◌<◌, ◌≡◌, Bool, true, ◌&&◌, List, [], ◌∷◌, map, arith,
}
use epica.Ledger.Defs.{Bytes}

unfoldable pub alphabet : List Char
alphabet =
    "A" ∷ "B" ∷ "C" ∷ "D" ∷ "E" ∷ "F" ∷ "G" ∷ "H" ∷ "I" ∷ "J" ∷ "K" ∷ "L" ∷ "M" ∷ "N" ∷ "O" ∷ "P"
    ∷ "Q" ∷ "R" ∷ "S" ∷ "T" ∷ "U" ∷ "V" ∷ "W" ∷ "X" ∷ "Y" ∷ "Z" ∷ "a" ∷ "b" ∷ "c" ∷ "d" ∷ "e" ∷ "f"
    ∷ "g" ∷ "h" ∷ "i" ∷ "j" ∷ "k" ∷ "l" ∷ "m" ∷ "n" ∷ "o" ∷ "p" ∷ "q" ∷ "r" ∷ "s" ∷ "t" ∷ "u" ∷ "v"
    ∷ "w" ∷ "x" ∷ "y" ∷ "z" ∷ "0" ∷ "1" ∷ "2" ∷ "3" ∷ "4" ∷ "5" ∷ "6" ∷ "7" ∷ "8" ∷ "9" ∷ "-" ∷ "_"
    ∷ []

unfoldable pub table : Bytes
table = map code alphabet

unfoldable pub symbol : ℕ → ℕ
symbol i = get_or table i 0

unfoldable pub base64url : Bytes → Bytes
base64url [] = []
base64url (b0 ∷ []) = symbol (b0 / 4) ∷ symbol (b0 % 4 * 16 + 0 / 16) ∷ []
base64url (b0 ∷ b1 ∷ []) =
    symbol (b0 / 4) ∷ symbol (b0 % 4 * 16 + b1 / 16) ∷ symbol (b1 % 16 * 4 + 0 / 64) ∷ []
base64url (b0 ∷ b1 ∷ b2 ∷ bs) =
    symbol (b0 / 4)
    ∷ symbol (b0 % 4 * 16 + b1 / 16)
    ∷ symbol (b1 % 16 * 4 + b2 / 64)
    ∷ symbol (b2 % 64)
    ∷ base64url bs

-- The reverse: the number of a symbol by RFC 4648, section 5 (A-Z, a-z, 0-9, the hyphen and the
-- underscore), and six bits of each.
unfoldable pub index_of : ℕ → ℕ
index_of c =
    if leb 65 c && leb c 90
    then c - 65
    else if leb 97 c && leb c 122
    then c - 97 + 26
    else if leb 48 c && leb c 57
    then c - 48 + 52
    else if nat_beq c 45
    then 62
    else 63

unfoldable pub regroup : Bytes → Bytes
regroup (i ∷ j ∷ k ∷ l ∷ is) =
    (i * 4 + j / 16) ∷ (j % 16 * 16 + k / 4) ∷ (k % 4 * 64 + l) ∷ regroup is
regroup (i ∷ j ∷ k ∷ []) = (i * 4 + j / 16) ∷ (j % 16 * 16 + k / 4) ∷ []
regroup (i ∷ j ∷ []) = (i * 4 + j / 16) ∷ []
regroup (i ∷ []) = []
regroup [] = []

unfoldable pub base64url_decoded : Bytes → Bytes
base64url_decoded cs = regroup (map index_of cs)

abbrev pub AllBytes : Bytes → Type 0
AllBytes [] = Unit
AllBytes (b ∷ bs) = (b < 256) × AllBytes bs

unfoldable all_found : ℕ → Bool
all_found zero = true
all_found (suc n) = let rest = all_found n in nat_beq (index_of (symbol n)) n && rest

pub length-base64url : (bs : Bytes) → length (base64url bs) ≡ (length bs * 4 + 2) / 3
unfolding base64url
length-base64url [] = omega arith
length-base64url (b0 ∷ []) = omega arith
length-base64url (b0 ∷ b1 ∷ []) = omega arith
length-base64url (b0 ∷ b1 ∷ b2 ∷ bs) = omega (arith, length-base64url bs)
