-- ===== src/Logbuf/Writing.antt =====
-- Write as an operation on the bounded list.
use ping_mesh.Prelude.{
  ℕ, zero, suc, ◌+◌, ◌-◌, ◌≤◌, ◌≡◌, ◌∙◌, refl, sym, ap, subst, ℤ, true, false, List, [], ◌∷◌, ◌++◌,
  Bool-cases, inl, inr, arith, if◌then◌else◌, length, drop, nat_eq, length-append, length-drop,
  take, length-take, length-take-le, replicate,
}
use mathlib.Core.List.{append_assoc, append-nil}
use ping_mesh.Logbuf.{
  Entry, new, zero_entry, Buffer, default_capacity, put, put_line, put_lines, write_bytes,
  trim_right, split_lines,
}
use ping_mesh.Logbuf.Ring.{IsRing, contents, newest, newest_of_few, put-IsRing, put-contents}

module _ {A : Type 0} where
  drop-drop_append :
      (m n : ℕ) (xs ys : List A)
      → m ≤ length xs
      → drop n (drop m xs ++ ys) ≡ drop (n + m) (xs ++ ys)
  drop-drop_append zero n xs ys h = ap (λ k. drop k (xs ++ ys)) plus_zero
    where
      plus_zero : n ≡ n + 0
      plus_zero = omega arith
  drop-drop_append (suc m) n [] ys h = absurd (omega arith)
  drop-drop_append (suc m) n (x ∷ xs) ys h =
      drop-drop_append m n xs ys (omega arith) ∙ ap (λ k. drop k (x ∷ (xs ++ ys))) plus_suc
    where
      plus_suc : suc (n + m) ≡ n + suc m
      plus_suc = omega arith

  -- What has been lost is lost for good.
  newest-append : (k : ℕ) (xs ys : List A) → newest k (newest k xs ++ ys) ≡ newest k (xs ++ ys)
  newest-append k xs ys =
      drop-drop_append (length xs - k) (length (newest k xs ++ ys) - k) xs ys (omega arith)
      ∙ ap (λ n. drop n (xs ++ ys)) sum
    where
      sum : length (newest k xs ++ ys) - k + (length xs - k) ≡ length (xs ++ ys) - k
      sum = omega (
        arith,
        length-append (newest k xs) ys,
        length-append xs ys,
        length-drop (length xs - k) xs,
      )

-- The entries of the lines that are not empty.
abbrev pub entries_of : ℤ → List (List ℕ) → List Entry
entries_of time [] = []
entries_of time (l ∷ ls) =
    if nat_eq (length (trim_right l)) 0
    then entries_of time ls
    else record { time = time; message = trim_right l } ∷ entries_of time ls

put_line-blank :
    (time : ℤ) (l : List ℕ) (b : Buffer)
    → nat_eq (length (trim_right l)) 0 ≡ true
    → put_line time l b ≡ b
unfolding put_line
put_line-blank time l b e = rw e

put_line-text :
    (time : ℤ) (l : List ℕ) (b : Buffer)
    → nat_eq (length (trim_right l)) 0 ≡ false
    → put_line time l b ≡ put (record { time = time; message = trim_right l }) b
unfolding put_line
put_line-text time l b e = rw e

put_lines-contents :
    (time : ℤ) (ls : List (List ℕ)) (b : Buffer)
    → IsRing b
    → length (contents b) ≤ default_capacity
    → contents (put_lines time ls b) ≡ newest default_capacity (contents b ++ entries_of time ls)
unfolding put_lines
put_lines-contents time [] b r h = sym (
    ap (newest default_capacity) (append-nil (contents b))
    ∙ newest_of_few default_capacity (contents b) h)
put_lines-contents time (l ∷ ls) b r h = elim (Bool-cases (nat_eq (length (trim_right l)) 0)) [
  | inl e ↦ rw e (
      ap (λ (c : Buffer). contents (put_lines time ls c)) (put_line-blank time l b e)
      ∙ put_lines-contents time ls b r h)
  | inr e ↦
      let x : Entry = record { time = time; message = trim_right l } in
      let step = put-contents x b r in
      rw e (
        ap (λ (c : Buffer). contents (put_lines time ls c)) (put_line-text time l b e)
        ∙ put_lines-contents time ls (put x b) (put-IsRing x b r) (
            subst (λ (xs : List Entry). length xs ≤ default_capacity) (sym step)
              (omega (
                arith,
                length-drop (length (contents b ++ x ∷ []) - default_capacity)
                    (contents b ++ x ∷ []),
              )))
        ∙ ap (λ (xs : List Entry). newest default_capacity (xs ++ entries_of time ls)) step
        ∙ newest-append default_capacity (contents b ++ x ∷ []) (entries_of time ls)
        ∙ ap (newest default_capacity) (append_assoc (contents b) (x ∷ []) (entries_of time ls)))
]

pub length-contents : (b : Buffer) → IsRing b → length (contents b) ≤ default_capacity
length-contents b r = elim (Bool-cases b.full) [
  | inl f ↦ rw f (
      omega (
        arith,
        r.size,
        r.in_range,
        length-append (drop b.position b.entries) (take b.position b.entries),
        length-drop b.position b.entries,
        length-take-le b.position b.entries,
        length-take b.position b.entries (omega (arith, r.size, r.in_range)),
      ))
  | inr f ↦ rw f (omega (arith, r.in_range, length-take-le b.position b.entries))
]

-- From a ring with its thousand places and a position in range, Write leaves the newest thousand
-- of what the ring held and the lines that are not empty behind it, each with the time of the
-- write and without newlines at its end.
pub write_bytes-contents :
    (time : ℤ) (p : List ℕ) (b : Buffer)
    → IsRing b
    → contents (write_bytes time p b)
      ≡ newest default_capacity (contents b ++ entries_of time (split_lines (trim_right p)))
unfolding write_bytes
write_bytes-contents time p b r =
    put_lines-contents time (split_lines (trim_right p)) b r (length-contents b r)

length-replicate : (n : ℕ) (x : Entry) → length (replicate n x) ≡ n
length-replicate zero x = refl
length-replicate (suc n) x = omega (arith, length-replicate n x)

-- New makes a ring that holds nothing.
pub new-IsRing : IsRing new
unfolding new
new-IsRing = record { size = length-replicate default_capacity zero_entry; in_range = omega arith }
