-- ===== src/Text.antt =====
-- Texts as lists of code points, with what the source uses of `String` and `str`.
use Prim.Native.Char.{code}
use Prim.Native.String.{String}
use actinium_actor.Prelude.{
  ℕ, zero, suc, ◌+◌, ◌-◌, ◌*◌, ◌/◌, ◌%◌, ◌^◌, ◌≡◌, refl, Bool, true, false, ◌&&◌, Option, none,
  some, List, [], ◌∷◌, ◌++◌, ltb, leb, ◌==◌, if◌then◌else◌,
}
pub mod Decimal

abbrev pub Text : Type 0
Text = List ℕ

abbrev pub text : String → Text
text String.[] = []
text (String.◌∷◌ c s) = code c ∷ text s

abbrev pub same : Text → Text → Bool
same [] [] = true
same (x ∷ xs) (y ∷ ys) = let rest = same xs ys in x == y && rest
same _ _ = false

-- The decimal digits of a number before `after`; the fuel bounds their count.
unfoldable pub digits : ℕ → ℕ → Text → Text
digits zero n after = after
digits (suc fuel) n after =
    let rest = digits fuel (n / 10) ((b'0' + n % 10) ∷ after) in
    if ltb n 10 then (b'0' + n % 10) ∷ after else rest

-- `Display` of an unsigned integer.
unfoldable pub show : ℕ → Text
unfolding digits
show n = digits (suc n) n []

-- `parse::<u64>()`: an optional `+`, and digits whose number is below 2^64.
unfoldable pub scan : Text → ℕ → Option ℕ
scan [] n = if ltb n (2 ^ 64) then some n else none
scan (c ∷ s) n =
    let rest = scan s (n * 10 + (c - b'0')) in if leb b'0' c && leb c b'9' then rest else none

unfoldable pub scan_digits : Text → Option ℕ
unfolding scan
scan_digits [] = none
scan_digits (c ∷ s) = scan (c ∷ s) 0

unfoldable pub parse_u64 : Text → Option ℕ
unfolding scan_digits
parse_u64 [] = none
parse_u64 (c ∷ s) = if c == b'+' then scan_digits s else scan_digits (c ∷ s)

-- `splitn(n, ' ')`: at most `n` pieces.
unfoldable pub put_first : ℕ → List Text → List Text
put_first c [] = (c ∷ []) ∷ []
put_first c (p ∷ ps) = (c ∷ p) ∷ ps

unfoldable pub splitn : ℕ → Text → List Text
unfolding put_first
splitn zero s = []
splitn (suc zero) s = s ∷ []
splitn (suc (suc n)) [] = [] ∷ []
splitn (suc (suc n)) (c ∷ s) =
    let last = splitn (suc n) s in
    let more = splitn (suc (suc n)) s in if c == b' ' then [] ∷ last else put_first c more

-- `join`
unfoldable pub join : Text → List Text → Text
join separator [] = []
join separator (p ∷ []) = p
join separator (p ∷ q ∷ ps) = p ++ separator ++ join separator (q ∷ ps)
