-- ===== src/Api/History.antt =====
-- internal/api/cli_handlers.go: what the handler of the history answers with.
use ping_mesh.Prelude.{
  ◌≡◌, ◌≢◌, ◌↔◌, refl, subst, ◌⊎◌, inl, inr, ℤ, pos, ltb_ℤ, leb_ℤ, pos_part, ◌<ℤ◌, ◌≤ℤ◌, String,
  List, map, Option, none, some, true, false, Bool, ◌&&◌, Bool-cases, ◌==◌, eq_iff, keep_if, take,
  IsPage, take-IsPage, if◌then◌else◌, arith,
}
use ping_mesh.Db.{ResultRow, scan_result}
use ping_mesh.World.{Env, World, result_le, exec, settle}
use ping_mesh.Store.{list_check_results, limited, result_matches}
use ping_mesh.Api.Reply.{json, status_ok}
use ping_mesh.Api.Url.{Query, Numbers, positive_or, limit_of, since_of}
use ping_mesh.Api.Monitors.{handle_history}

-- What a parameter of the query stands for, where 50 stands for one that is missing or no positive number.
abbrev pub IsLimit : Option ℤ → String → ℤ → Type 0
IsLimit read l limit =
    ((l ≢ "") × (read ≡ some limit) × (pos 0 <ℤ limit))
    ⊎ ((limit ≡ pos 50) × ((l ≡ "") ⊎ ((v : ℤ) → read ≡ some v → v ≤ℤ pos 0)))

-- The parameter of the query that names a monitor or a node, or is missing, admits an id.
abbrev pub Admits : String → String → Type 0
Admits asked id = (asked ≡ "") ⊎ (id ≡ asked)

-- A result of the history: of the monitor and of the node, where one is named, and not before the
-- time, where a positive one is given.
abbrev pub IsAsked : String → String → ℤ → ResultRow → Type 0
IsAsked monitor_id node_id since r =
    Admits monitor_id r.monitor_id
    × Admits node_id r.node_id
    × ((since ≤ℤ pos 0) ⊎ (since ≤ℤ r.timestamp))

-- The time that the query gives, or 0.
abbrev pub IsSince : Numbers → String → ℤ → Type 0
IsSince numbers text since =
    ((text ≡ "") × (since ≡ pos 0)) ⊎ ((text ≢ "") × (since ≡ numbers.parse_int text))

some_injective : {a b : ℤ} → some a ≡ some b → a ≡ b
some_injective e = cc

positive_or-IsLimit :
    (read : Option ℤ) (l : String) → l ≢ "" → IsLimit read l (positive_or (pos 50) read)
positive_or-IsLimit none l h = inr (refl, inr (λ v e. cc))
positive_or-IsLimit (some v) l h = elim (Bool-cases (ltb_ℤ (pos 0) v)) [
  | inl e ↦ rw e (inl (h, refl, ground arith))
  | inr e ↦
      let low : v ≤ℤ pos 0 = ground arith in
      rw e (inr (refl, inr (λ u s. subst (λ x. x ≤ℤ pos 0) (some_injective s) low)))
]

-- Whether a text is empty, with the test.
empty-cases : (s : String) → ((s == "") ≡ true × (s ≡ "")) ⊎ ((s == "") ≡ false × (s ≢ ""))
empty-cases s = elim (Bool-cases (s == "")) [
  | inl e ↦ inl (e, (eq_iff s "").0 e)
  | inr e ↦ inr (e, λ h. cc ((eq_iff s "").1 h, e))
]

limit_of-IsLimit :
    (numbers : Numbers) (l : String) → IsLimit (numbers.atoi l) l (limit_of numbers (pos 50) l)
unfolding limit_of
limit_of-IsLimit numbers l = elim (empty-cases l) [
  | inl (e, h) ↦ rw e (inr (refl, inl h))
  | inr (e, h) ↦ rw e (positive_or-IsLimit (numbers.atoi l) l h)
]

since_of-IsSince : (numbers : Numbers) (l : String) → IsSince numbers l (since_of numbers l)
unfolding since_of
since_of-IsSince numbers l = elim (empty-cases l) [
  | inl (e, h) ↦ rw e (inl (h, refl))
  | inr (e, h) ↦ rw e (inr (h, refl))
]

limit-positive : (read : Option ℤ) (l : String) (limit : ℤ) → IsLimit read l limit → pos 0 <ℤ limit
limit-positive read l limit (inl h) = h.2
limit-positive read l limit (inr h) = rw h.0 (omega arith)

admitted :
    (asked id : String) → ((if asked == "" then true else id == asked) ≡ true) ↔ Admits asked id
admitted asked id = elim (empty-cases asked) [
  | inl (e, h) ↦ rw e (λ t. inl h, λ t. refl)
  | inr (e, h) ↦ rw e (
    λ t. inr ((eq_iff id asked).0 t),
    λ t. elim t [ inl n ↦ absurd (h n) | inr same ↦ (eq_iff id asked).1 same ],
  )
]

not_before :
    (since time : ℤ)
    → ((if ltb_ℤ (pos 0) since then leb_ℤ since time else true) ≡ true)
      ↔ ((since ≤ℤ pos 0) ⊎ (since ≤ℤ time))
not_before since time = elim (Bool-cases (ltb_ℤ (pos 0) since)) [
  | inl e ↦ rw e (
    λ t. inr (ground arith),
    λ t. elim t [ inl low ↦ absurd (ground arith) | inr late ↦ ground arith ],
  )
  | inr e ↦ rw e (λ t. inl (ground arith), λ t. refl)
]

both : (a b c : Bool) → ((a && b && c) ≡ true) ↔ ((a ≡ true) × (b ≡ true) × (c ≡ true))
both a b c = (λ e. ground arith, λ e. ground arith)

result_matches-IsAsked :
    (monitor_id node_id : String) (since : ℤ) (r : ResultRow)
    → (result_matches monitor_id node_id since r ≡ true) ↔ IsAsked monitor_id node_id since r
unfolding result_matches
result_matches-IsAsked monitor_id node_id since r =
    let m = admitted monitor_id r.monitor_id in
    let n = admitted node_id r.node_id in
    let t = not_before since r.timestamp in
    (
      λ e. let parts = (both _ _ _).0 e in (m.0 parts.0, n.0 parts.1, t.0 parts.2),
      λ h. (both _ _ _).1 (m.1 h.0, n.1 h.1, t.1 h.2),
    )

limited-positive :
    {A : Type 0} (limit : ℤ) (rows : List A)
    → pos 0 <ℤ limit
    → limited limit rows ≡ take (pos_part limit) rows
unfolding limited
limited-positive limit rows h = let e : ltb_ℤ (pos 0) limit ≡ true = ground arith in rw e

-- Where the statement does not fail, the history is a page of the stored results, newest first:
-- results of the monitor and of the node that the query names, if it names one, and not before its
-- time, if that is positive; no more of them than the limit of the query, or than 50 where that is
-- missing or no positive number; and a stored result of this kind that is not on the page is no
-- newer than those of a full page.
pub handle_history-IsPage :
    (env : Env) (numbers : Numbers) (query : Query) (w : World)
    → env.faults w.statements ≡ false
    → (limit : ℤ) × IsLimit (numbers.atoi (query "limit")) (query "limit") limit
      × (since : ℤ) × IsSince numbers (query "since") since
      × (rows : List ResultRow) × ((handle_history env numbers query w).0
          ≡ json status_ok (map scan_result rows))
      × IsPage result_le
          (IsAsked (query "monitor") (query "node") since)
          (pos_part limit)
          w.db.check_results
          rows
unfolding handle_history list_check_results exec settle
handle_history-IsPage env numbers query w fine =
    let limit = limit_of numbers (pos 50) (query "limit") in
    let read = limit_of-IsLimit numbers (query "limit") in
    let since = since_of numbers (query "since") in
    let asked = result_matches (query "monitor") (query "node") since in
    let found = env.results_newest_first.sort (keep_if asked w.db.check_results) in
    let rows = take (pos_part limit) found in
    let positive = limit-positive (numbers.atoi (query "limit")) (query "limit") limit read in
    (
      limit,
      read,
      since,
      since_of-IsSince numbers (query "since"),
      rows,
      rw (fine, limited-positive limit found positive),
      take-IsPage result_le (IsAsked (query "monitor") (query "node") since) asked
          (result_matches-IsAsked (query "monitor") (query "node") since) env.results_newest_first
          (pos_part limit) w.db.check_results,
    )
