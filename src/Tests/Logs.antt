-- ===== src/Tests/Logs.antt =====
-- What the theorems on the log buffer say of a line.
use ping_mesh.Prelude.{ℕ, pos, List, [], ◌∷◌, ◌++◌, ◌≡◌}
use ping_mesh.Logbuf.{Entry, put, last, new, write_bytes, default_capacity, split_lines, trim_right}
use ping_mesh.Logbuf.Reading.{last-contents}
use ping_mesh.Logbuf.Ring.{put-IsRing, contents, newest}
use ping_mesh.Logbuf.Writing.{entries_of, write_bytes-contents, new-IsRing}

-- "a", an empty line, "b"
abbrev two_lines : List ℕ
two_lines = 97 ∷ 10 ∷ 10 ∷ 98 ∷ 10 ∷ []

write_bytes-contents_example :
    contents (write_bytes (pos 5) two_lines new)
    ≡ newest default_capacity
        (contents new ++ entries_of (pos 5) (split_lines (trim_right two_lines)))
write_bytes-contents_example = write_bytes-contents (pos 5) two_lines new new-IsRing

abbrev one_line : Entry
one_line = record { time = pos 5; message = 97 ∷ [] }

last-contents_example : last 3 (put one_line new) ≡ newest 3 (contents (put one_line new))
last-contents_example = last-contents 3 (put one_line new) (put-IsRing one_line new new-IsRing)
