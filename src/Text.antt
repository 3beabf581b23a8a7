-- ===== src/Text.antt =====
-- What the forwarder uses of Go's `strings` and of `net/textproto`: comparison under case folding
-- and the canonical form of a header's name. A Go string is a native text here, so it is UTF-8.
use Prim.Native.Char.{Char, code}
use Prim.Native.String.{◌++◌}
use oes_birger.Prelude.{
  String, List, [], ◌∷◌, Option, none, some, ◌==◌, ◌≡◌, Bool, true, ◌&&◌, ◌||◌, leb, eqb,
  if◌then◌else◌, eq_refl,
}

-- The character of `to` that stands where `c` stands in `from`, or `c` itself.
unfoldable pub translate : String → String → Char → Char
translate (String.◌∷◌ f from) (String.◌∷◌ t to) c =
    let rest = translate from to c in if eqb (code f) (code c) then t else rest
translate _ _ c = c

unfoldable pub map_text : (Char → Char) → String → String
map_text f String.[] = String.[]
map_text f (String.◌∷◌ c s) = String.◌∷◌ (f c) (map_text f s)

abbrev pub upper_letters : String
upper_letters = "ABCDEFGHIJKLMNOPQRSTUVWXYZ"

abbrev pub lower_letters : String
lower_letters = "abcdefghijklmnopqrstuvwxyz"

unfoldable pub lower_char : Char → Char
unfolding translate
lower_char c = translate upper_letters lower_letters c

unfoldable pub upper_char : Char → Char
unfolding translate
upper_char c = translate lower_letters upper_letters c

-- The least member of the folding orbit of every ASCII letter; `K` and `S` have a third form.
unfoldable pub fold_char : Char → Char
unfolding translate
fold_char c = translate "ABCDEFGHIJKLMNOPQRSTUVWXYZKſ" "abcdefghijklmnopqrstuvwxyzks" c

-- `strings.EqualFold`, where one of the texts is ASCII, as it is at each call of the forwarder.
unfoldable pub equal_fold : String → String → Bool
unfolding map_text fold_char
equal_fold s t = map_text fold_char s == map_text fold_char t

-- A byte that may stand in a header's name: a letter, a digit or one of !#$%&'*+-.^_`|~.
unfoldable pub is_token_char : Char → Bool
is_token_char c =
    let n = code c in
    (leb b'a' n && leb n b'z')
    || (leb b'A' n && leb n b'Z')
    || (leb b'0' n && leb n b'9')
    || eqb n 33
    || (leb 35 n && leb n 39)
    || eqb n 42
    || eqb n 43
    || eqb n 45
    || eqb n 46
    || eqb n 94
    || eqb n 95
    || eqb n 96
    || eqb n 124
    || eqb n 126

unfoldable pub is_token : String → Bool
unfolding is_token_char
is_token String.[] = true
is_token (String.◌∷◌ c s) = is_token_char c && is_token s

-- The first letter and each letter behind a dash in upper case, the others in lower case.
unfoldable pub title_case : Bool → String → String
unfolding lower_char upper_char
title_case start String.[] = String.[]
title_case start (String.◌∷◌ c s) =
    String.◌∷◌ (if start then upper_char c else lower_char c) (title_case (eqb (code c) b'-') s)

-- `http.CanonicalHeaderKey`: a text that is no token is left alone.
unfoldable pub canonical_key : String → String
unfolding is_token title_case
canonical_key s = if is_token s then title_case true s else s

-- `len(s) == 0`.
unfoldable pub is_empty_text : String → Bool
is_empty_text s = s == ""

unfoldable pub concat : List String → String
concat [] = ""
concat (s ∷ texts) = s ++ concat texts

-- `strings.SplitN(s, " ", 2)`: what is before the first space and behind it, if there is one.
unfoldable pub split_at_space : String → Option (String × String)
split_at_space String.[] = none
split_at_space (String.◌∷◌ c s) =
    let rest = split_at_space s in
    if eqb (code c) b' '
    then some ("", s)
    else elim rest [ none ↦ none | some (before, behind) ↦ some (String.◌∷◌ c before, behind) ]

pub equal_fold_refl : (s : String) → equal_fold s s ≡ true
unfolding equal_fold
equal_fold_refl s = eq_refl (map_text fold_char s)
