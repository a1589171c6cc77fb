-- ===== src/Base/Strings.antt =====
-- Strings of the client: sequences of UTF-16 code units, with the library calls the source makes
-- on them (`===`, `startsWith`, `includes`, `trim`, `toLowerCase` on ASCII).
use Prim.Native.Char.{code}
use Prim.Native.Nat.{ℕ, ◌+◌}
use Prim.Native.String.{String}
use mathlib.Core.Path.{◌≡◌, refl}
use mathlib.Core.Logic.{◌↔◌, ◌≢◌}
use mathlib.Core.Bool.{Bool, true, false, ◌&&◌, ◌||◌}
use mathlib.Core.List.{List, [], ◌∷◌, ◌++◌, reverse}
use native.Mathlib.Omega.{arith}
use notes_of_ashen.Base.Lists.{All}
use notes_of_ashen.Base.Tests.{leb, ◌==◌, if◌then◌else◌}

abbrev pub Text : Type 0
Text = List ℕ

-- A literal of the source.
abbrev pub codes : String → Text
codes String.[] = []
codes (String.◌∷◌ c s) = code c ∷ codes s

-- a === b
unfoldable pub text_eq : Text → Text → Bool
text_eq [] [] = true
text_eq (a ∷ s) (b ∷ t) = (a == b) && text_eq s t
text_eq _ _ = false

pub text_eq_iff : (s t : Text) → (text_eq s t ≡ true) ↔ (s ≡ t)
unfolding text_eq
text_eq_iff [] [] = ground arith
text_eq_iff [] (b ∷ t) = ground arith
text_eq_iff (a ∷ s) [] = ground arith
text_eq_iff (a ∷ s) (b ∷ t) = ground (arith, text_eq_iff s t)

pub text_eq_refl : (s : Text) → text_eq s s ≡ true
text_eq_refl s = (text_eq_iff s s).1 refl

-- The truth value of a string: false for ''.
abbrev pub truthy : Text → Bool
truthy [] = false
truthy (c ∷ s) = true

-- s || d
abbrev pub or_text : Text → Text → Text
or_text [] d = d
or_text (c ∷ s) d = c ∷ s

-- s.startsWith(p)
unfoldable pub starts_with : Text → Text → Bool
starts_with s [] = true
starts_with [] (p ∷ ps) = false
starts_with (c ∷ s) (p ∷ ps) = (c == p) && starts_with s ps

-- s.includes(p)
unfoldable pub includes : Text → Text → Bool
unfolding starts_with
includes [] p = starts_with [] p
includes (c ∷ s) p = starts_with (c ∷ s) p || includes s p

-- WhiteSpace and LineTerminator of ECMAScript, which `trim` removes.
unfoldable pub is_space : ℕ → Bool
is_space c =
    (leb 9 c && leb c 13)
    || (c == 32)
    || (c == 160)
    || (c == 0x1680)
    || (leb 0x2000 c && leb c 0x200a)
    || (c == 0x2028)
    || (c == 0x2029)
    || (c == 0x202f)
    || (c == 0x205f)
    || (c == 0x3000)
    || (c == 0xfeff)

unfoldable pub trim_start : Text → Text
unfolding is_space
trim_start [] = []
trim_start (c ∷ s) = if is_space c then trim_start s else c ∷ s

-- s.trim()
unfoldable pub trim : Text → Text
unfolding trim_start
trim s = reverse (trim_start (reverse (trim_start s)))

unfoldable pub lower : ℕ → ℕ
lower c = if leb b'A' c && leb c b'Z' then c + 32 else c

pub starts_with-append : (p s q : Text) → starts_with (p ++ s) (p ++ q) ≡ starts_with s q
unfolding starts_with
starts_with-append [] s q = refl
starts_with-append (c ∷ p) s q = ground (arith, starts_with-append p s q)

pub starts_with_self : (p s : Text) → starts_with (p ++ s) p ≡ true
unfolding starts_with
starts_with_self [] s = refl
starts_with_self (c ∷ p) s = ground (arith, starts_with_self p s)

-- A prefix that ends in a mark which neither part holds fixes the part before the mark.
pub starts_with-delimited :
    (m : ℕ) (p q s : Text)
    → All (λ c. c ≢ m) p
    → All (λ c. c ≢ m) q
    → starts_with (q ++ m ∷ s) (p ++ m ∷ []) ≡ true
    → p ≡ q
unfolding starts_with
starts_with-delimited m [] [] s hp hq h = refl
starts_with-delimited m [] (d ∷ q) s hp hq h = ground arith
starts_with-delimited m (c ∷ p) [] s hp hq h = ground arith
starts_with-delimited m (c ∷ p) (d ∷ q) s hp hq h =
    ground (arith, starts_with-delimited m p q s hp.1 hq.1)
