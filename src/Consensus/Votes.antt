-- ===== src/Consensus/Votes.antt =====
-- What a quorum is worth.
use ping_mesh.Prelude.{
  ℕ, ◌+◌, ◌*◌, ◌≤◌, ◌<◌, ℤ, pos, ◌≤ℤ◌, String, ◌≡◌, ◌≢◌, ◌↔◌, true, false, eq_iff, arith,
  Bool-cases, inl, inr,
}
use ping_mesh.Consensus.Quorum.{evaluate_quorum}

-- For a quorum type other than n_of_m, a count is a quorum exactly if it is more than half of the
-- total.
pub majority_iff :
    (quorum_type : String) (quorum_n : ℤ) (fails total : ℕ)
    → quorum_type ≢ "n_of_m"
    → (evaluate_quorum quorum_type quorum_n fails total ≡ true) ↔ (total < 2 * fails)
unfolding evaluate_quorum
majority_iff t n fails total h =
    (λ e. ground (arith, eq_iff t "n_of_m"), λ l. ground (arith, eq_iff t "n_of_m"))

-- For a quorum type other than n_of_m, of two counts that add up to no more than the total, the
-- second is not a quorum where the first is.
pub majorities_intersect :
    (quorum_type : String) (quorum_n : ℤ) (a b total : ℕ)
    → quorum_type ≢ "n_of_m"
    → a + b ≤ total
    → evaluate_quorum quorum_type quorum_n a total ≡ true
    → evaluate_quorum quorum_type quorum_n b total ≡ false
majorities_intersect t n a b total h s e = elim (Bool-cases (evaluate_quorum t n b total)) [
  | inl f ↦
      absurd (omega (arith, (majority_iff t n a total h).0 e, (majority_iff t n b total h).0 f))
  | inr f ↦ f
]

-- A number of an n_of_m quorum that is not positive: no vote at all is a quorum.
pub empty_quorum :
    (quorum_n : ℤ) (fails total : ℕ)
    → quorum_n ≤ℤ pos 0
    → evaluate_quorum "n_of_m" quorum_n fails total ≡ true
unfolding evaluate_quorum
empty_quorum n fails total h = ground arith
