-- ===== src/Base/Lines.antt =====
-- Python's `str`: the methods that take a text apart into lines and words.
use Prim.Native.Nat.{◌-◌}
use Prim.Native.Char.{Char, code}
use Prim.Native.String.{String, [], ◌∷◌, char_at}
use mathlib.Core.Bool.{Bool, false, ◌&&◌, ◌||◌}
use mathlib.Core.Option.{Option, none, some}
use mathlib.Core.List.{List}
use streaming_fpuna_proyecto.Base.Tests.{leb, ◌==◌, String-discrete, if◌then◌else◌}
use streaming_fpuna_proyecto.Base.Text.{same_code, is_space, lstrip}

-- the characters that end a line
unfoldable pub is_line_break : Char → Bool
is_line_break c =
    let n = code c in
    leb 10 n && leb n 13
    || leb 28 n && leb n 30
    || same_code n 0x85
    || same_code n 0x2028
    || same_code n 0x2029

-- a character at the front of the first line
abbrev pub onto_first : Char → List String → List String
onto_first c List.[] = List.◌∷◌ (c ∷ []) List.[]
onto_first c (List.◌∷◌ line lines) = List.◌∷◌ (c ∷ line) lines

-- the flag says that a carriage return comes before, to which a line feed belongs
unfoldable pub lines_from : Bool → String → List String
lines_from after_return [] = List.[]
lines_from after_return (c ∷ s) =
    let rest = lines_from (same_code (code c) 13) s in
    if after_return && same_code (code c) 10
    then rest
    else if is_line_break c
    then List.◌∷◌ [] rest
    else onto_first c rest

-- `s.splitlines()`
unfoldable pub splitlines : String → List String
unfolding lines_from is_line_break
splitlines = lines_from false

-- the text up to the first white space, and the text from there on
unfoldable pub first_word : String → String × String
unfolding is_space
first_word [] = ([], [])
first_word (c ∷ s) =
    let (word, rest) = first_word s in if is_space c then ([], c ∷ s) else (c ∷ word, rest)

-- `s.split(maxsplit=1)` of a text that is not blank and has no white space at its ends; `none` if that
-- has one part only
unfoldable pub split_once : String → Option (String × String)
unfolding first_word lstrip String-discrete
split_once s =
    let (word, rest) = first_word s in if lstrip rest == "" then none else some (word, lstrip rest)

abbrev lower_of : Char → Char
lower_of c =
    if leb b'A' (code c) && leb (code c) b'Z'
    then char_at "abcdefghijklmnopqrstuvwxyz" (code c - b'A')
    else c

-- `s.lower()` of a text in ASCII. Outside ASCII no character has a lower case that is a hexadecimal digit,
-- so the comparison with a digest fails there either way.
unfoldable pub lower : String → String
lower [] = []
lower (c ∷ s) = lower_of c ∷ lower s

-- `s.lstrip("* ")`
unfoldable pub lstrip_marks : String → String
lstrip_marks [] = []
lstrip_marks (c ∷ s) =
    let rest = lstrip_marks s in
    if same_code (code c) b'*' || same_code (code c) b' ' then rest else c ∷ s
