-- ===== src/Chat/Query.antt =====
-- parsePagination and shouldMarkReadFromQuery of routes/chat/chat.go.
use uni_pool_new_backend.Base.{
  ℕ, ◌+◌, ◌-◌, ◌*◌, Bool, ◌&&◌, ◌||◌, Option, none, some, String, List, [], ◌∷◌, ltb, leb, ◌==◌,
  if◌then◌else◌,
}
use uni_pool_new_backend.Text.{codes, codes_eq, is_empty, normalize}

-- The parameters of the query; `before` is the time that `time.Parse` reads, if it reads one.
pub record PageQuery : Type 0 where
  pub limit : String
  pub before : Option ℕ
  pub mark_read : String

abbrev pub default_message_limit : ℕ
default_message_limit = 50

abbrev pub max_message_limit : ℕ
max_message_limit = 200

unfoldable pub digits : ℕ → List ℕ → Option ℕ
digits n [] = some n
digits n (c ∷ cs) = if leb b'0' c && leb c b'9' then digits (n * 10 + (c - b'0')) cs else none

-- `strconv.Atoi`, where its result is above zero; `none` is an error, zero or less.
abbrev pub above_zero : Option ℕ → Option ℕ
above_zero none = none
above_zero (some n) = if ltb 0 n && ltb n 9223372036854775808 then some n else none

unfoldable pub atoi_above_zero : List ℕ → Option ℕ
atoi_above_zero [] = none
atoi_above_zero (c ∷ cs) =
    if c == b'+'
    then if is_empty cs then none else above_zero (digits 0 cs)
    else above_zero (digits 0 (c ∷ cs))

unfoldable pub parse_limit : String → ℕ
parse_limit raw = elim (atoi_above_zero (codes raw)) [
  | none ↦ default_message_limit
  | some v ↦ if ltb max_message_limit v then max_message_limit else v
]

unfoldable pub should_mark_read : String → Bool
should_mark_read raw =
    codes_eq (normalize raw) (codes "1")
    || (codes_eq (normalize raw) (codes "true") || codes_eq (normalize raw) (codes "yes"))
