-- ===== src/Logbuf.antt =====
-- internal/logbuf/logbuf.go: a ring of the newest log lines. A text is its bytes. An index is always in
-- range; `get_entry` and `set` say what they do elsewhere only to be total.
pub mod Ring
pub mod Writing
pub mod Reading
use ping_mesh.Prelude.{
  ℕ, zero, suc, ◌+◌, ◌-◌, ◌%◌, ℤ, pos, leb, ltb, nat_eq, Bool, true, false, List, [], ◌∷◌,
  if◌then◌else◌, length, take, drop, set, replicate,
}

pub record Entry : Type 0 where
  pub time : ℤ
  pub message : List ℕ

pub record Buffer : Type 0 where
  pub entries : List Entry
  pub position : ℕ  -- next write position
  pub full : Bool  -- whether the ring has wrapped around

abbrev pub default_capacity : ℕ
default_capacity = 1000

abbrev pub zero_entry : Entry
zero_entry = record { time = pos 0; message = [] }

unfoldable pub new : Buffer
new = record { entries = replicate default_capacity zero_entry; position = 0; full = false }

abbrev pub newline : ℕ
newline = 10

-- bytes.TrimRight(p, "\n")
abbrev pub trim_before : ℕ → List ℕ → List ℕ
trim_before b [] = if nat_eq b newline then [] else b ∷ []
trim_before b (c ∷ cs) = b ∷ c ∷ cs

unfoldable pub trim_right : List ℕ → List ℕ
trim_right [] = []
trim_right (b ∷ bs) = trim_before b (trim_right bs)

-- bytes.Split(p, "\n")
abbrev pub onto_first : ℕ → List (List ℕ) → List (List ℕ)
onto_first b [] = (b ∷ []) ∷ []
onto_first b (l ∷ ls) = (b ∷ l) ∷ ls

unfoldable pub split_lines : List ℕ → List (List ℕ)
split_lines [] = [] ∷ []
split_lines (b ∷ bs) =
    let rest = split_lines bs in if nat_eq b newline then [] ∷ rest else onto_first b rest

-- The body of the loop from the assignment on.
unfoldable pub put : Entry → Buffer → Buffer
put e b =
    if leb (length b.entries) (suc b.position)
    then record { entries = set b.entries b.position e; position = 0; full = true }
    else record b { entries = set b.entries b.position e; position = suc b.position }

unfoldable pub put_line : ℤ → List ℕ → Buffer → Buffer
put_line time line b =
    if nat_eq (length (trim_right line)) 0
    then b
    else put (record { time = time; message = trim_right line }) b

unfoldable pub put_lines : ℤ → List (List ℕ) → Buffer → Buffer
put_lines time [] b = b
put_lines time (l ∷ ls) b = put_lines time ls (put_line time l b)

-- `time` is the reading of the clock.
unfoldable pub write_bytes : ℤ → List ℕ → Buffer → Buffer
write_bytes time p b = put_lines time (split_lines (trim_right p)) b

abbrev pub get_entry : List Entry → ℕ → Entry
get_entry [] n = zero_entry
get_entry (x ∷ xs) zero = x
get_entry (x ∷ xs) (suc n) = get_entry xs n

-- The loop that reads `n` entries from `start` on.
unfoldable pub read_from : List Entry → ℕ → ℕ → List Entry
read_from entries start zero = []
read_from entries start (suc n) =
    get_entry entries (start % length entries) ∷ read_from entries (suc start) n

abbrev pub total : Buffer → ℕ
total b = if b.full then length b.entries else b.position

abbrev pub at_most : ℕ → ℕ → ℕ
at_most n bound = if ltb bound n then bound else n

-- The last `n`, where `n` is not negative.
unfoldable pub last : ℕ → Buffer → List Entry
last n b =
    let k = at_most n (total b) in
    if b.full
    then read_from b.entries ((b.position + length b.entries - k) % length b.entries) k
    else take k (drop (b.position - k) b.entries)
