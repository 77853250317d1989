-- ===== src/Logbuf/Ring.antt =====
-- The ring as a bounded list: the newest thousand lines, oldest first.
use ping_mesh.Prelude.{
  ℕ, suc, ◌-◌, ◌≤◌, ◌<◌, ◌≡◌, ◌∙◌, sym, ap, ap₂, leb, List, [], ◌∷◌, ◌++◌, Bool-cases, inl, inr,
  arith, if◌then◌else◌, length, take, drop, set, length-set, take-set, drop-set, take-all,
  length-take, length-drop, drop-one, length-append, nil_of_length,
}
use mathlib.Core.List.{append_assoc, append-nil}
use ping_mesh.Logbuf.{Entry, Buffer, default_capacity, put}

pub record IsRing (b : Buffer) : Type 0 where
  pub size : length b.entries ≡ default_capacity
  pub in_range : b.position < default_capacity

-- What the ring holds.
abbrev pub contents : Buffer → List Entry
contents b =
    if b.full
    then drop b.position b.entries ++ take b.position b.entries
    else take b.position b.entries

abbrev pub newest : {A : Type 0} → ℕ → List A → List A
newest k xs = drop (length xs - k) xs

pub newest_of_few : {A : Type 0} (k : ℕ) (xs : List A) → length xs ≤ k → newest k xs ≡ xs
newest_of_few k xs h = ap (λ n. drop n xs) none_over
  where
    none_over : length xs - k ≡ 0
    none_over = omega arith

newest_of_one_over :
    {A : Type 0} (k : ℕ) (xs : List A) → length xs ≡ suc k → newest k xs ≡ drop 1 xs
newest_of_one_over k xs h = ap (λ n. drop n xs) one_over
  where
    one_over : length xs - k ≡ 1
    one_over = omega arith

pub put-IsRing : (e : Entry) (b : Buffer) → IsRing b → IsRing (put e b)
unfolding put
put-IsRing e b r = elim (Bool-cases (leb (length b.entries) (suc b.position))) [
  | inl w ↦
      rw w (record { size = length-set b.entries b.position e ∙ r.size; in_range = omega arith })
  | inr w ↦ rw w (record {
    size = length-set b.entries b.position e ∙ r.size;
    in_range = ground (arith, r.size, r.in_range);
  })
]

module _ (e : Entry) (es : List Entry) (p : ℕ) (size : length es ≡ default_capacity)
    (h : p < default_capacity) where
  extended : take (suc p) (set es p e) ≡ take p es ++ e ∷ []
  extended = take-set es p e (omega arith)

  length-kept : length (take p es ++ e ∷ []) ≡ suc p
  length-kept = length-append (take p es) (e ∷ []) ∙ omega (arith, length-take p es (omega arith))

  -- The ring has not wrapped around: nothing is lost.
  few : newest default_capacity (take p es ++ e ∷ []) ≡ take p es ++ e ∷ []
  few = newest_of_few default_capacity _ (omega (arith, length-kept))

  length-turned : length ((drop p es ++ take p es) ++ e ∷ []) ≡ suc default_capacity
  length-turned = omega (
    arith,
    length-append (drop p es ++ take p es) (e ∷ []),
    length-append (drop p es) (take p es),
    length-drop p es,
    length-take p es (omega arith),
  )

  -- It has: the oldest line is lost.
  turned :
      newest default_capacity ((drop p es ++ take p es) ++ e ∷ [])
      ≡ drop (suc p) (set es p e) ++ take (suc p) (set es p e)
  turned =
      newest_of_one_over default_capacity _ length-turned
      ∙ ap (drop 1) (append_assoc (drop p es) (take p es) (e ∷ []))
      ∙ drop-one es p (take p es ++ e ∷ []) (omega arith)
      ∙ sym (ap₂ (λ (xs ys : List Entry). xs ++ ys) (drop-set es p e) extended)

  -- At the last position the new ring starts over.
  started_over :
      default_capacity ≤ suc p
      → drop (suc p) (set es p e) ++ take (suc p) (set es p e) ≡ set es p e ++ []
  started_over last =
      ap₂ (λ (xs ys : List Entry). xs ++ ys)
        (nil_of_length (drop (suc p) (set es p e))
          (omega (arith, length-drop (suc p) (set es p e), length-set es p e)))
        (take-all (suc p) (set es p e) (omega (arith, length-set es p e)))
      ∙ sym (append-nil (set es p e))

pub put-contents :
    (e : Entry) (b : Buffer)
    → IsRing b
    → contents (put e b) ≡ newest default_capacity (contents b ++ e ∷ [])
unfolding put
put-contents e b r = elim (Bool-cases (leb (length b.entries) (suc b.position))) [
  | inl w ↦
      let last : default_capacity ≤ suc b.position = ground (arith, r.size) in
      elim (Bool-cases b.full) [
        | inl f ↦
            rw (w, f)
              (sym (
                turned e b.entries b.position r.size r.in_range
                ∙ started_over e b.entries b.position r.size r.in_range last))
        | inr f ↦
            rw (w, f)
              (append-nil (set b.entries b.position e)
                ∙ sym (
                    take-all (suc b.position) (set b.entries b.position e)
                      (omega (arith, r.size, length-set b.entries b.position e)))
                ∙ extended e b.entries b.position r.size r.in_range
                ∙ sym (few e b.entries b.position r.size r.in_range))
      ]
  | inr w ↦ elim (Bool-cases b.full) [
    | inl f ↦ rw (w, f) (sym (turned e b.entries b.position r.size r.in_range))
    | inr f ↦
        rw (w, f)
          (extended e b.entries b.position r.size r.in_range
            ∙ sym (few e b.entries b.position r.size r.in_range))
  ]
]
