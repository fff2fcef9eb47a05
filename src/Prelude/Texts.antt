-- ===== src/Prelude/Texts.antt =====
-- Text as a list of code points, and the functions of Go's package strings that the source calls.
use Prim.Native.Nat.{ℕ, zero, suc, ◌+◌, ◌-◌, ◌*◌, ◌/◌, ◌%◌, ◌≤◌}
use Prim.Native.Char.{code}
use Prim.Native.String.{String}
use mathlib.Core.Path.{◌≡◌, refl}
use mathlib.Core.Bool.{Bool, true, false, ◌&&◌, ◌||◌}
use mathlib.Core.List.{List, [], ◌∷◌, ◌++◌, reverse, reverse-cons, reverse-reverse}
use darwin_net.Prelude.Tests.{leb, ltb, nat_beq, if◌then◌else◌}
use darwin_net.Prelude.Equality.{◌==◌, nat_eq}
use darwin_net.Prelude.Lists.{All, All-append}
use native.Mathlib.Omega.{arith}

abbrev pub Text : Type 0
Text = List ℕ

-- the order of Go's strings, on ASCII text
abbrev pub text_less : Text → Text → Bool
text_less [] [] = false
text_less [] (d ∷ ds) = true
text_less (c ∷ cs) [] = false
text_less (c ∷ cs) (d ∷ ds) = ltb c d || (nat_beq c d && text_less cs ds)

-- the code points of a literal
abbrev pub codes : String → Text
codes String.[] = []
codes (String.◌∷◌ c s) = code c ∷ codes s

-- unicode.IsSpace
abbrev pub is_space : ℕ → Bool
is_space c =
    (leb 0x9 c && leb c 0xd)
    || c == 0x20
    || c == 0x85
    || c == 0xa0
    || c == 0x1680
    || (leb 0x2000 c && leb c 0x200a)
    || c == 0x2028
    || c == 0x2029
    || c == 0x202f
    || c == 0x205f
    || c == 0x3000

unfoldable pub trim_left : Text → Text
trim_left [] = []
trim_left (c ∷ s) = let rest = trim_left s in if is_space c then rest else c ∷ s

-- strings.TrimSpace
unfoldable pub trim_space : Text → Text
unfolding trim_left
trim_space s = reverse (trim_left (reverse (trim_left s)))

-- strings.HasSuffix(s, ".") and strings.TrimSuffix(s, ".")
unfoldable pub has_dot_suffix : Text → Bool
has_dot_suffix [] = false
has_dot_suffix (c ∷ []) = c == b'.'
has_dot_suffix (c ∷ d ∷ s) = has_dot_suffix (d ∷ s)

unfoldable pub trim_dot_suffix : Text → Text
trim_dot_suffix [] = []
trim_dot_suffix (c ∷ []) = if c == b'.' then [] else c ∷ []
trim_dot_suffix (c ∷ d ∷ s) = c ∷ trim_dot_suffix (d ∷ s)

-- strings.Count(s, ".")
unfoldable pub count_dots : Text → ℕ
count_dots [] = 0
count_dots (c ∷ s) = (if c == b'.' then 1 else 0) + count_dots s

-- strings.Join(parts, " ")
unfoldable pub join_spaces : List Text → Text
join_spaces [] = []
join_spaces (s ∷ []) = s
join_spaces (s ∷ t ∷ rest) = s ++ b' ' ∷ join_spaces (t ∷ rest)

-- the digits of a number before those of `s`; a round of the fuel per digit
unfoldable pub digits : ℕ → ℕ → Text → Text
digits zero n s = s
digits (suc fuel) n s =
    let longer = digits fuel (n / 10) ((b'0' + n % 10) ∷ s) in if n == 0 then s else longer

-- strconv.Itoa and %d on a number that is not negative
unfoldable pub itoa : ℕ → Text
unfolding digits
itoa zero = b'0' ∷ []
itoa (suc n) = digits (suc n) (suc n) []

-- the number of some digits that follow the digits of `n`
unfoldable pub atoi_from : ℕ → Text → ℕ
atoi_from n [] = n
atoi_from n (c ∷ s) = atoi_from (n * 10 + (c - b'0')) s

-- fuel `n` reaches every digit of `n`
atoi_from-digits :
    (fuel n : ℕ) (s : Text) → n ≤ fuel → atoi_from 0 (digits fuel n s) ≡ atoi_from n s
unfolding digits atoi_from
atoi_from-digits zero n s h = let e : n ≡ 0 = omega arith in rw e
atoi_from-digits (suc fuel) n s h =
    let value : (n / 10) * 10 + ((b'0' + n % 10) - b'0') ≡ n = omega arith in
    ground (arith, atoi_from-digits fuel (n / 10) ((b'0' + n % 10) ∷ s) (omega arith), value)

pub atoi_from-itoa : (n : ℕ) → atoi_from 0 (itoa n) ≡ n
unfolding itoa atoi_from
atoi_from-itoa zero = refl
atoi_from-itoa (suc n) = atoi_from-digits (suc n) (suc n) [] (omega arith)

trim_left_clean : (s : Text) → All (λ c. is_space c ≡ false) s → trim_left s ≡ s
unfolding trim_left
trim_left_clean [] h = refl
trim_left_clean (c ∷ s) h = rw h.0

All-reverse {κ} : (P : ℕ → Type κ) (s : Text) → All P s → All P (reverse s)
All-reverse P [] h = tt
All-reverse P (c ∷ s) h =
    rw (reverse-cons c s) (All-append P (reverse s) (c ∷ []) (All-reverse P s h.1) (h.0, tt))

-- A text without white space is left alone.
pub trim_space_clean : (s : Text) → All (λ c. is_space c ≡ false) s → trim_space s ≡ s
unfolding trim_space
trim_space_clean s h =
    rw
      (trim_left_clean s h, trim_left_clean (reverse s) (All-reverse (λ c. is_space c ≡ false) s h))
      (reverse-reverse s)
