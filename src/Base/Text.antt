-- ===== src/Base/Text.antt =====
-- Python's `str`: what the code uses of its methods.
use Prim.Native.Nat.{ℕ, zero, suc}
use Prim.Native.Char.{Char, code}
use Prim.Native.String.{String, [], ◌∷◌, ◌++◌}
use mathlib.Core.Bool.{Bool, false, ◌&&◌, ◌||◌}
use mathlib.Core.Path.{◌≡◌, sym}
use mathlib.Core.Logic.{inl, inr}
use text.Mathlib.Text.{starts_with}
use text.Mathlib.TextLemmas.{nil≢cons}
use streaming_fpuna_proyecto.Base.Tests.{
  leb, ◌==◌, eq_of_==, Bool-cases, String-discrete, if◌then◌else◌,
}

abbrev pub same_code : ℕ → ℕ → Bool
same_code a b = leb a b && leb b a

-- the white space that `strip` removes
unfoldable pub is_space : Char → Bool
is_space c =
    let n = code c in
    leb 9 n && leb n 13
    || leb 28 n && leb n 32
    || same_code n 0x85
    || same_code n 0xa0
    || same_code n 0x1680
    || leb 0x2000 n && leb n 0x200a
    || same_code n 0x2028
    || same_code n 0x2029
    || same_code n 0x202f
    || same_code n 0x205f
    || same_code n 0x3000

unfoldable pub lstrip : String → String
unfolding is_space
lstrip [] = []
lstrip (c ∷ s) = let rest = lstrip s in if is_space c then rest else c ∷ s

-- the text without the white space at its end
unfoldable pub rstrip : String → String
unfolding is_space String-discrete
rstrip [] = []
rstrip (c ∷ s) = let rest = rstrip s in if is_space c && rest == "" then [] else c ∷ rest

unfoldable pub strip : String → String
unfolding lstrip rstrip
strip s = rstrip (lstrip s)

-- `not s.strip()`
unfoldable pub is_blank : String → Bool
unfolding strip String-discrete
is_blank s = strip s == ""

-- `s.endswith("Z")`
unfoldable pub ends_with_z : String → Bool
ends_with_z [] = false
ends_with_z (c ∷ []) = same_code (code c) b'Z'
ends_with_z (c ∷ d ∷ s) = ends_with_z (d ∷ s)

-- `s[:-1]`
unfoldable pub drop_last : String → String
drop_last [] = []
drop_last (c ∷ []) = []
drop_last (c ∷ d ∷ s) = c ∷ drop_last (d ∷ s)

-- after `skip` more characters of a match, replace on
replace_from : ℕ → String → String
replace_from skip [] = []
replace_from zero (c ∷ s) =
    let matched = "Z" ++ replace_from 5 s in
    let kept = c ∷ replace_from 0 s in if starts_with (c ∷ s) "+00:00" then matched else kept
replace_from (suc skip) (c ∷ s) = replace_from skip s

-- `s.replace("+00:00", "Z")`
unfoldable pub replace_utc : String → String
unfolding replace_from
replace_utc s = replace_from 0 s

==-cons : (c : Char) (s : String) → ((c ∷ s) == "") ≡ false
==-cons c s = elim (Bool-cases ((c ∷ s) == "")) [
  | inl e ↦ absurd (nil≢cons (sym (eq_of_== (c ∷ s) "" e)))
  | inr e ↦ e
]

-- a text that starts with anything but white space is not blank
pub is_blank-cons : (c : Char) (s : String) → is_space c ≡ false → is_blank (c ∷ s) ≡ false
unfolding is_blank strip lstrip rstrip
is_blank-cons c s h = rw (h, lstrip) (rw (h, rstrip) (==-cons c (rstrip s)))
