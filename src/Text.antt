-- ===== src/Text.antt =====
-- What the program uses of Go's package strings, on lists of code points.
pub mod Equal
use Prim.Native.Char.{code}
use uni_pool_new_backend.Base.{
  ℕ, ◌+◌, Bool, true, false, not, ◌&&◌, ◌||◌, Option, none, some, String, List, [], ◌∷◌, ◌++◌, map,
  leb, ◌==◌, if◌then◌else◌,
}
use mathlib.Core.List.{reverse}

-- The code points of a text.
unfoldable pub codes : String → List ℕ
codes String.[] = []
codes (String.◌∷◌ c s) = code c ∷ codes s

unfoldable pub codes_eq : List ℕ → List ℕ → Bool
codes_eq [] [] = true
codes_eq [] (d ∷ ds) = false
codes_eq (c ∷ cs) [] = false
codes_eq (c ∷ cs) (d ∷ ds) = c == d && codes_eq cs ds

-- `unicode.ToLower`, as far as its result is an ASCII letter: the Kelvin sign and the dotted capital I
-- are the only other code points with such a lower case. The program compares with ASCII words.
unfoldable pub to_lower : ℕ → ℕ
to_lower c =
    if leb b'A' c && leb c b'Z'
    then c + 32
    else if c == 0x212a
    then b'k'
    else if c == 0x130
    then b'i'
    else c

-- `unicode.IsSpace`.
unfoldable pub is_space : ℕ → Bool
is_space c =
    (leb 9 c && leb c 13)
    || (c == 32
        || (c == 0x85
            || (c == 0xa0
                || (c == 0x1680
                    || ((leb 0x2000 c && leb c 0x200a)
                        || (c == 0x2028
                            || (c == 0x2029 || (c == 0x202f || (c == 0x205f || c == 0x3000)))))))))

unfoldable pub trim_left : List ℕ → List ℕ
trim_left [] = []
trim_left (c ∷ cs) = if is_space c then trim_left cs else c ∷ cs

-- `strings.TrimSpace`
unfoldable pub trim_space : List ℕ → List ℕ
trim_space cs = reverse (trim_left (reverse (trim_left cs)))

-- `strings.ToLower(strings.TrimSpace(s))`
unfoldable pub normalize : String → List ℕ
normalize s = map to_lower (trim_space (codes s))

-- `strings.ToLower(gender) == "female"`
unfoldable pub is_female : String → Bool
is_female gender = codes_eq (map to_lower (codes gender)) (codes "female")

-- `strings.Fields`, with the field that is being read.
unfoldable pub fields_from : List ℕ → List ℕ → List (List ℕ)
fields_from [] [] = []
fields_from (f ∷ fs) [] = (f ∷ fs) ∷ []
fields_from [] (c ∷ cs) = fields_from (if is_space c then [] else c ∷ []) cs
fields_from (f ∷ fs) (c ∷ cs) =
    let split = (f ∷ fs) ∷ fields_from [] cs in
    let grown = fields_from ((f ∷ fs) ++ (c ∷ [])) cs in if is_space c then split else grown

-- `strings.Join(fields, " ")`
unfoldable pub join_fields : List (List ℕ) → List ℕ
join_fields [] = []
join_fields (f ∷ []) = f
join_fields (f ∷ g ∷ fs) = f ++ (32 ∷ join_fields (g ∷ fs))

unfoldable pub is_empty : List ℕ → Bool
is_empty [] = true
is_empty (c ∷ cs) = false

-- What stands behind the last sign, found by `strings.LastIndex`, if there is one.
unfoldable pub after_last : ℕ → List ℕ → Option (List ℕ)
after_last sign [] = none
after_last sign (c ∷ cs) = elim (after_last sign cs) [
  | none ↦ if c == sign then some cs else none
  | some rest ↦ some rest
]

-- The first sign, found by `strings.Index`, is not the last of the text.
unfoldable pub has_more_after_first : ℕ → List ℕ → Bool
has_more_after_first sign [] = false
has_more_after_first sign (c ∷ cs) =
    let later = has_more_after_first sign cs in if c == sign then not (is_empty cs) else later
