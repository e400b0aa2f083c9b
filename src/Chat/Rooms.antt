-- ===== src/Chat/Rooms.antt =====
-- dmRoomID and parseDMRoomID of routes/chat/chat.go: the name of the room of two users. The texts are
-- lists of code points, and the package uuid is a parameter.
use uni_pool_new_backend.Base.{
  ℕ, ◌≡◌, ◌≢◌, ◌⊎◌, refl, sym, ap, ◌∙◌, Bool, true, false, Option, none, some, List, [], ◌∷◌, ◌++◌,
  ◌==◌, ltb, arith, if◌then◌else◌, All, inl, inr, Bool-cases,
}

-- Go's `<` on strings.
unfoldable pub text_lt : List ℕ → List ℕ → Bool
text_lt [] [] = false
text_lt [] (d ∷ ds) = true
text_lt (c ∷ cs) [] = false
text_lt (c ∷ cs) (d ∷ ds) =
    let rest = text_lt cs ds in if ltb c d then true else if ltb d c then false else rest

-- strings.HasPrefix and strings.TrimPrefix.
unfoldable pub strip_prefix : List ℕ → List ℕ → Option (List ℕ)
strip_prefix [] cs = some cs
strip_prefix (p ∷ ps) [] = none
strip_prefix (p ∷ ps) (c ∷ cs) = let rest = strip_prefix ps cs in if p == c then rest else none

-- strings.SplitN(s, "_", 2), where it gives two parts.
unfoldable pub split_underscore : List ℕ → Option (List ℕ × List ℕ)
split_underscore [] = none
split_underscore (c ∷ cs) =
    let rest = split_underscore cs in
    if c == b'_'
    then some ([], cs)
    else elim rest [ none ↦ none | some parts ↦ some (c ∷ parts.0, parts.1) ]

-- "dm_"
abbrev pub dm_prefix : List ℕ
dm_prefix = b'd' ∷ b'm' ∷ b'_' ∷ []

module _ (uuid_string : ℕ → List ℕ) (uuid_parse : List ℕ → Option ℕ) where
  unfoldable pub dm_room_id : ℕ → ℕ → List ℕ
  dm_room_id a b =
      if text_lt (uuid_string a) (uuid_string b)
      then dm_prefix ++ (uuid_string a ++ (b'_' ∷ uuid_string b))
      else dm_prefix ++ (uuid_string b ++ (b'_' ∷ uuid_string a))

  unfoldable pub parse_users : Option ℕ → Option ℕ → Option (ℕ × ℕ)
  parse_users none b = none
  parse_users (some a) none = none
  parse_users (some a) (some b) = if a == b then none else some (a, b)

  unfoldable pub parse_parts : Option (List ℕ × List ℕ) → Option (ℕ × ℕ)
  unfolding parse_users
  parse_parts none = none
  parse_parts (some ([], second)) = none
  parse_parts (some (c ∷ cs, [])) = none
  parse_parts (some (c ∷ cs, d ∷ ds)) = parse_users (uuid_parse (c ∷ cs)) (uuid_parse (d ∷ ds))

  unfoldable pub parse_dm_room_id : List ℕ → Option (ℕ × ℕ)
  unfolding parse_parts
  parse_dm_room_id room_id = elim (strip_prefix dm_prefix room_id) [
    | none ↦ none
    | some rest ↦ parse_parts (split_underscore rest)
  ]

-- What the program relies on of the package uuid: parsing gives back what String wrote, and the text
-- of a uuid is hexadecimal digits and dashes.
pub record IsUuid (uuid_string : ℕ → List ℕ) (uuid_parse : List ℕ → Option ℕ) : Type 0 where
  pub parse_string : (u : ℕ) → uuid_parse (uuid_string u) ≡ some u
  pub no_underscore : (u : ℕ) → All (λ c. c ≢ b'_') (uuid_string u)
  pub not_empty : (u : ℕ) → uuid_string u ≢ []

split-join :
    (cs ds : List ℕ) → All (λ c. c ≢ b'_') cs → split_underscore (cs ++ (b'_' ∷ ds)) ≡ some (cs, ds)
unfolding split_underscore
split-join [] ds a = refl
split-join (c ∷ cs) ds a =
    let other : (c == b'_') ≡ false = let ne = a.0 in ground arith in
    rw (other, split-join cs ds a.1) refl

-- Two texts are the same, or exactly one is less.
data Order (cs ds : List ℕ) : Type 0 where
  same : cs ≡ ds → Order cs ds
  less : text_lt cs ds ≡ true → text_lt ds cs ≡ false → Order cs ds
  more : text_lt cs ds ≡ false → text_lt ds cs ≡ true → Order cs ds

order : (cs ds : List ℕ) → Order cs ds
unfolding text_lt
order [] [] = same refl
order [] (d ∷ ds) = less refl refl
order (c ∷ cs) [] = more refl refl
order (c ∷ cs) (d ∷ ds) = elim (Bool-cases (ltb c d)) [
  | inl lt ↦ less (ground arith) (ground arith)
  | inr ge ↦ elim (Bool-cases (ltb d c)) [
    | inl gt ↦ more (ground arith) (ground arith)
    | inr le ↦
        let at : c ≡ d = ground arith in
        elim (order cs ds) [
          | same e ↦ same (rw (at, e) refl)
          | less l r ↦ less (rw (ge, le, l) refl) (rw (le, ge, r) refl)
          | more l r ↦ more (rw (ge, le, l) refl) (rw (le, ge, r) refl)
        ]
  ]
]

module _ (uuid_string : ℕ → List ℕ) (uuid_parse : List ℕ → Option ℕ)
    (lib : IsUuid uuid_string uuid_parse) where
  parts-users :
      (cs ds : List ℕ)
      → cs ≢ []
      → ds ≢ []
      → parse_parts uuid_string uuid_parse (some (cs, ds))
        ≡ parse_users uuid_string uuid_parse (uuid_parse cs) (uuid_parse ds)
  unfolding parse_parts
  parts-users [] ds full full' = absurd (full refl)
  parts-users (c ∷ cs) [] full full' = absurd (full' refl)
  parts-users (c ∷ cs) (d ∷ ds) full full' = refl

  users-pair :
      (a b : ℕ) → a ≢ b → parse_users uuid_string uuid_parse (some a) (some b) ≡ some (a, b)
  unfolding parse_users
  users-pair a b ne = ground arith

  parse-pair :
      (a b : ℕ)
      → a ≢ b
      → parse_dm_room_id uuid_string uuid_parse
          (dm_prefix ++ (uuid_string a ++ (b'_' ∷ uuid_string b)))
        ≡ some (a, b)
  unfolding parse_dm_room_id strip_prefix
  parse-pair a b ne = rw (split-join (uuid_string a) (uuid_string b) (lib.no_underscore a)) (
      parts-users (uuid_string a) (uuid_string b) (lib.not_empty a) (lib.not_empty b)
      ∙ rw (lib.parse_string a, lib.parse_string b) (users-pair a b ne))

  string_apart : (a b : ℕ) → a ≢ b → uuid_string a ≢ uuid_string b
  string_apart a b ne e =
      let one : some a ≡ some b = sym (lib.parse_string a) ∙ ap uuid_parse e ∙ lib.parse_string b in
      ne (ground arith)

-- Two different users have one room, whichever of them opens it, and parsing its name gives back the
-- two, in one order or the other; for a package uuid as `IsUuid` describes it.
pub parse-dm_room_id :
    (uuid_string : ℕ → List ℕ) (uuid_parse : List ℕ → Option ℕ)
    → IsUuid uuid_string uuid_parse
    → (a b : ℕ) → a ≢ b
    → (dm_room_id uuid_string uuid_parse a b ≡ dm_room_id uuid_string uuid_parse b a)
      × ((parse_dm_room_id uuid_string uuid_parse (dm_room_id uuid_string uuid_parse a b)
            ≡ some (a, b))
          ⊎ (parse_dm_room_id uuid_string uuid_parse (dm_room_id uuid_string uuid_parse a b)
              ≡ some (b, a)))
unfolding dm_room_id
parse-dm_room_id uuid_string uuid_parse lib a b ne = elim (order (uuid_string a) (uuid_string b)) [
  | same e ↦ absurd (string_apart uuid_string uuid_parse lib a b ne e)
  | less l r ↦ rw (l, r) (refl, inl (parse-pair uuid_string uuid_parse lib a b ne))
  | more l r ↦ rw (l, r) (refl, inr (parse-pair uuid_string uuid_parse lib b a (λ e. ne (sym e))))
]
