-- ===== src/Tracker/History.antt =====
-- What the tracker holds after any sequence of calls, against an unbounded log.
use pmp_mock_http.Prelude.{
  ℕ, zero, suc, ◌-◌, ◌≤◌, ℤ, pos, pos_part, ltb_ℤ, ◌≡◌, refl, sym, ap, ◌∙◌, some, List, [], ◌∷◌,
  ◌++◌, reverse, length, take, drop, last, arith, ltb, take_all, drop_nil, get_elem?-total,
  last-append-last, Bool-cases, inl, inr, if◌then◌else◌,
}
use mathlib.Core.List.{reverse-append}
use pmp_mock_http.Tracker.{
  RequestLog, Tracker, new_tracker, next, stamped, log, read_back, get_logs, clear,
}

read_back-eq-reverse :
    (logs : List RequestLog) (j : ℕ)
    → j ≤ length logs
    → read_back logs j ≡ some (reverse (take j logs))
unfolding read_back
read_back-eq-reverse logs zero h = refl
read_back-eq-reverse logs (suc j) h =
    let (entry, found, taken) = get_elem?-total logs j (omega arith) in
    rw (found, read_back)
      (rw (read_back-eq-reverse logs j (omega arith), read_back)
        (rw taken (ap some (sym (reverse-append (take j logs) (entry ∷ []))))))

-- GetLogs never reads out of range, and returns the entries with the newest first.
pub get_logs-eq-reverse : (t : Tracker) → get_logs t ≡ some (reverse t.logs)
unfolding get_logs
get_logs-eq-reverse t =
    read_back-eq-reverse t.logs (length t.logs) (omega arith)
    ∙ ap (λ (l : List RequestLog). some (reverse l)) (take_all t.logs)

-- The calls that change a tracker.
pub data Call : Type 0 where
  logged : ℕ → RequestLog → Call
  cleared : Call

unfoldable pub run : Tracker → List Call → Tracker
run t [] = t
run t (logged now entry ∷ calls) = run (log t now entry) calls
run t (cleared ∷ calls) = run (clear t) calls

-- The abstract log: every entry since the last Clear, with the id that it was given.
pub record Journal : Type 0 where
  pub entries : List RequestLog
  pub next_id : ℕ

unfoldable pub journal : Journal → List Call → Journal
journal s [] = s
journal s (logged now entry ∷ calls) =
    journal
      (record { entries = s.entries ++ stamped s.next_id now entry ∷ []; next_id = next s.next_id })
      calls
journal s (cleared ∷ calls) = journal (record s { entries = [] }) calls

abbrev pub empty_journal : Journal
empty_journal = record { entries = []; next_id = 1 }

-- The tracker holds the journal's end.
pub record Holds (t : Tracker) (s : Journal) : Type 0 where
  pub kept : t.logs ≡ last t.max_logs s.entries
  pub numbered : t.next_id ≡ s.next_id

-- The test before the cut makes no difference.
cut-eq-last :
    (m : ℕ) (xs : List RequestLog)
    → (if ltb m (length xs) then drop (length xs - m) xs else xs) ≡ last m xs
cut-eq-last m xs = elim (Bool-cases (ltb m (length xs))) [
  | inl long ↦ rw long
  | inr short ↦ rw short (ap (λ k. drop k xs) {x = 0} (ground arith))
]

log-Holds :
    (t : Tracker) (s : Journal) (now : ℕ) (entry : RequestLog)
    → Holds t s
    → Holds (log t now entry) (record {
      entries = s.entries ++ stamped s.next_id now entry ∷ [];
      next_id = next s.next_id;
    })
unfolding log
log-Holds t s now entry h = record {
  kept =
      cut-eq-last t.max_logs (t.logs ++ stamped t.next_id now entry ∷ [])
      ∙ ap (λ (l : List RequestLog). last t.max_logs (l ++ stamped t.next_id now entry ∷ [])) h.kept
      ∙ last-append-last t.max_logs s.entries (stamped t.next_id now entry)
      ∙ ap (λ n. last t.max_logs (s.entries ++ stamped n now entry ∷ [])) h.numbered;
  numbered = ap next h.numbered;
}

pub max_logs-run : (t : Tracker) (calls : List Call) → (run t calls).max_logs ≡ t.max_logs
unfolding run log clear
max_logs-run t [] = refl
max_logs-run t (logged now entry ∷ calls) = max_logs-run (log t now entry) calls
max_logs-run t (cleared ∷ calls) = max_logs-run (clear t) calls

run-Holds :
    (t : Tracker) (s : Journal) (calls : List Call)
    → Holds t s
    → Holds (run t calls) (journal s calls)
unfolding run journal
run-Holds t s [] h = h
run-Holds t s (logged now entry ∷ calls) h =
    run-Holds (log t now entry) _ calls (log-Holds t s now entry h)
run-Holds t s (cleared ∷ calls) h =
    run-Holds (clear t) (record s { entries = [] }) calls
      (unfold clear in record { kept = sym (drop_nil _); numbered = h.numbered })

new_tracker-Holds : (max : ℤ) → Holds (new_tracker max) empty_journal
unfolding new_tracker
new_tracker-Holds max = record { kept = sym (drop_nil _); numbered = refl }

-- After any calls of Log and Clear on a new tracker, GetLogs returns the last entries of the
-- unbounded log since the last Clear, as many as the tracker's bound allows, the newest first,
-- each with the id that the unbounded log gives it; and the bound is the one that NewTracker was
-- given, or 1000 for one that is not positive.
pub get_logs-run :
    (max : ℤ) (calls : List Call)
    → (get_logs (run (new_tracker max) calls)
        ≡ some (reverse (last (new_tracker max).max_logs (journal empty_journal calls).entries)))
      × ((new_tracker max).max_logs ≡ (if ltb_ℤ (pos 0) max then pos_part max else 1000))
get_logs-run max calls =
    let h = run-Holds (new_tracker max) empty_journal calls (new_tracker-Holds max) in
    (
      get_logs-eq-reverse (run (new_tracker max) calls)
          ∙ ap (λ (l : List RequestLog). some (reverse l))
              (h.kept
                ∙ ap (λ n. last n (journal empty_journal calls).entries)
                    (max_logs-run (new_tracker max) calls)),
      unfold new_tracker in refl,
    )
