-- ===== src/Logbuf/Reading.antt =====
-- Last as the end of the bounded list.
use ping_mesh.Prelude.{
  ℕ, zero, suc, ◌+◌, ◌-◌, ◌%◌, ◌≤◌, ◌<◌, ◌≡◌, ◌∙◌, refl, sym, ap, ap₂, subst, List, [], ◌∷◌, ◌++◌,
  Bool-cases, inl, inr, arith, ltb, length, take, drop, length-append, length-drop, length-take,
  take-all,
}
use ping_mesh.Logbuf.{Entry, Buffer, default_capacity, get_entry, read_from, at_most, last}
use ping_mesh.Logbuf.Ring.{IsRing, contents, newest}

module _ {A : Type 0} where
  take-drop :
      (m k : ℕ) (xs : List A) → m + k ≤ length xs → take k (drop m xs) ≡ drop m (take (m + k) xs)
  take-drop zero k xs h = ap (λ n. take n xs) zero_plus
    where
      zero_plus : k ≡ 0 + k
      zero_plus = omega arith
  take-drop (suc m) k [] h = absurd (omega arith)
  take-drop (suc m) k (x ∷ xs) h =
      take-drop m k xs (omega arith) ∙ ap (λ n. drop (suc m) (take n (x ∷ xs))) suc_plus
    where
      suc_plus : suc (m + k) ≡ suc m + k
      suc_plus = omega arith

  drop-append_past :
      (m : ℕ) (xs ys : List A) → length xs ≤ m → drop m (xs ++ ys) ≡ drop (m - length xs) ys
  drop-append_past m [] ys h = ap (λ n. drop n ys) minus_zero
    where
      minus_zero : m ≡ m - 0
      minus_zero = omega arith
  drop-append_past zero (x ∷ xs) ys h = absurd (omega arith)
  drop-append_past (suc m) (x ∷ xs) ys h =
      drop-append_past m xs ys (omega arith) ∙ ap (λ n. drop n ys) minus_suc
    where
      minus_suc : m - length xs ≡ suc m - suc (length xs)
      minus_suc = omega arith

  drop-append_within :
      (m : ℕ) (xs ys : List A) → m ≤ length xs → drop m (xs ++ ys) ≡ drop m xs ++ ys
  drop-append_within zero xs ys h = refl
  drop-append_within (suc m) [] ys h = absurd (omega arith)
  drop-append_within (suc m) (x ∷ xs) ys h = drop-append_within m xs ys (omega arith)

  drop-drop : (m n : ℕ) (xs : List A) → drop n (drop m xs) ≡ drop (n + m) xs
  drop-drop zero n xs = ap (λ k. drop k xs) plus_zero
    where
      plus_zero : n ≡ n + 0
      plus_zero = omega arith
  drop-drop (suc m) zero [] = ap (λ k. drop k []) zero_plus
    where
      zero_plus : suc m ≡ 0 + suc m
      zero_plus = omega arith
  drop-drop (suc m) (suc n) [] = ap (λ k. drop k []) suc_plus
    where
      suc_plus : suc (n + suc m) ≡ suc n + suc m
      suc_plus = omega arith
  drop-drop (suc m) n (x ∷ xs) = drop-drop m n xs ∙ ap (λ k. drop k (x ∷ xs)) plus_suc
    where
      plus_suc : suc (n + m) ≡ n + suc m
      plus_suc = omega arith

drop-get_entry :
    (xs : List Entry) (t : ℕ) → t < length xs → drop t xs ≡ get_entry xs t ∷ drop (suc t) xs
drop-get_entry [] t h = absurd (omega arith)
drop-get_entry (x ∷ xs) zero h = refl
drop-get_entry (x ∷ xs) (suc t) h = drop-get_entry xs t (omega arith)

module _ (es : List Entry) (size : length es ≡ default_capacity) where
  -- A run of indices that does not cross the end, in whatever turn of the ring.
  read_piece :
      (c t k : ℕ) → c % 1000 ≡ 0 → t + k ≤ 1000 → read_from es (c + t) k ≡ take k (drop t es)
  unfolding read_from
  read_piece c t zero hc h = refl
  read_piece c t (suc k) hc h =
      ap₂ (λ (x : Entry) (xs : List Entry). x ∷ xs) (ap (get_entry es) index)
        (ap (λ s. read_from es s k) next ∙ read_piece c (suc t) k hc (omega arith))
      ∙ sym (ap (take (suc k)) (drop-get_entry es t (omega arith)))
    where
      index : (c + t) % length es ≡ t
      index = subst (λ l. (c + t) % l ≡ t) (sym size) (omega arith)

      next : suc (c + t) ≡ c + suc t
      next = omega arith

  read_from-append :
      (a b s : ℕ) → read_from es s (a + b) ≡ read_from es s a ++ read_from es (s + a) b
  unfolding read_from
  read_from-append zero b s = ap₂ (read_from es) plus_zero zero_plus
    where
      plus_zero : s ≡ s + 0
      plus_zero = omega arith

      zero_plus : 0 + b ≡ b
      zero_plus = omega arith
  read_from-append (suc a) b s =
      ap (read_from es s) suc_plus
      ∙ ap (λ (xs : List Entry). get_entry es (s % length es) ∷ xs)
          (read_from-append a b (suc s)
            ∙ ap (λ t. read_from es (suc s) a ++ read_from es t b) shift)
    where
      suc_plus : suc a + b ≡ suc (a + b)
      suc_plus = omega arith

      shift : suc s + a ≡ s + suc a
      shift = omega arith

  module _ (p k : ℕ) (hp : p < 1000) (hk : k ≤ 1000) where
    length-front : length (drop p es) ≡ 1000 - p
    length-front = length-drop p es ∙ omega arith

    -- The lines are all behind the place where the ring starts.
    read_short :
        k ≤ p → read_from es ((p + 1000 - k) % 1000) k ≡ drop (1000 - k) (drop p es ++ take p es)
    read_short h =
        ap (λ s. read_from es s k) start
        ∙ read_piece 0 (p - k) k (omega arith) (omega arith)
        ∙ take-drop (p - k) k es (omega arith)
        ∙ ap₂ (λ m n. drop m (take n es)) offset whole
        ∙ sym (drop-append_past (1000 - k) (drop p es) (take p es) (omega (arith, length-front)))
      where
        start : (p + 1000 - k) % 1000 ≡ 0 + (p - k)
        start = omega arith

        offset : p - k ≡ 1000 - k - length (drop p es)
        offset = omega (arith, length-front)

        whole : p - k + k ≡ p
        whole = omega arith

    -- They cross the end of the array.
    read_long :
        p < k → read_from es ((p + 1000 - k) % 1000) k ≡ drop (1000 - k) (drop p es ++ take p es)
    read_long h =
        ap₂ (read_from es) start parts
        ∙ read_from-append (k - p) p (0 + (p + 1000 - k))
        ∙ ap₂ (λ (xs ys : List Entry). xs ++ ys) front back
        ∙ sym (drop-append_within (1000 - k) (drop p es) (take p es) (omega (arith, length-front)))
      where
        start : (p + 1000 - k) % 1000 ≡ 0 + (p + 1000 - k)
        start = omega arith

        parts : k ≡ k - p + p
        parts = omega arith

        rest : 1000 - k + p ≡ p + 1000 - k
        rest = omega arith

        front : read_from es (0 + (p + 1000 - k)) (k - p) ≡ drop (1000 - k) (drop p es)
        front =
            read_piece 0 (p + 1000 - k) (k - p) (omega arith) (omega arith)
            ∙ take-all (k - p) (drop (p + 1000 - k) es)
                (omega (arith, length-drop (p + 1000 - k) es))
            ∙ ap (λ n. drop n es) (sym rest)
            ∙ sym (drop-drop p (1000 - k) es)

        second : 0 + (p + 1000 - k) + (k - p) ≡ 1000 + 0
        second = omega arith

        back : read_from es (0 + (p + 1000 - k) + (k - p)) p ≡ take p es
        back = ap (λ s. read_from es s p) second ∙ read_piece 1000 0 p (omega arith) (omega arith)

    read_turned : read_from es ((p + 1000 - k) % 1000) k ≡ drop (1000 - k) (drop p es ++ take p es)
    read_turned = elim (Bool-cases (ltb p k)) [
      | inl l ↦ read_long (ground arith)
      | inr l ↦ read_short (ground arith)
    ]

    length-whole : length (drop p es ++ take p es) ≡ 1000
    length-whole =
        omega (
          arith,
          length-append (drop p es) (take p es),
          length-front,
          length-take p es (omega arith),
        )

at_most_lem : (n bound : ℕ) → (at_most n bound ≤ bound) × (bound - at_most n bound ≡ bound - n)
at_most_lem n bound = elim (Bool-cases (ltb bound n)) [
  | inl l ↦ let over : bound < n = ground arith in rw l (omega arith, omega arith)
  | inr l ↦ let within : n ≤ bound = ground arith in rw l (omega arith, refl)
]

-- For a ring with its thousand places and a position in range, Last gives the newest n of what the
-- ring holds, oldest first, or all of it where there is less, whether or not the ring has wrapped
-- around.
pub last-contents : (n : ℕ) (b : Buffer) → IsRing b → last n b ≡ newest n (contents b)
unfolding last
last-contents n b r = elim (Bool-cases b.full) [
  | inl f ↦
      let bounds = at_most_lem n 1000 in
      rw (f, r.size)
        (read_turned b.entries r.size b.position (at_most n 1000) r.in_range bounds.0
          ∙ ap (λ m. drop m (drop b.position b.entries ++ take b.position b.entries))
              (bounds.1
                ∙ ap (λ l. l - n)
                    (sym (
                      length-whole b.entries r.size b.position (at_most n 1000) r.in_range
                        bounds.0))))
  | inr f ↦
      let bounds = at_most_lem n b.position in
      let size : b.position ≤ length b.entries = omega (arith, r.size, r.in_range) in
      rw f (
        take-drop (b.position - at_most n b.position) (at_most n b.position) b.entries
          (omega (arith, bounds.0))
        ∙ ap₂ (λ m l. drop m (take l b.entries))
            (bounds.1 ∙ ap (λ l. l - n) (sym (length-take b.position b.entries size)))
            (whole b.position (at_most n b.position) bounds.0))
]
  where
    whole : (p k : ℕ) → k ≤ p → p - k + k ≡ p
    whole p k h = omega arith
