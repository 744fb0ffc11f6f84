-- ===== src/Tracker/Ids.antt =====
-- The ids of the entries that a tracker holds.
use pmp_mock_http.Prelude.{
  ℕ, zero, suc, ◌+◌, ◌-◌, ◌%◌, ◌^◌, ◌≤◌, ◌<◌, ℤ, ◌≡◌, ◌≢◌, refl, some, List, [], ◌∷◌, ◌++◌, length,
  get_elem?, drop, arith, ltb, length-append, length-drop, Bool-cases, inl, inr,
}
use pmp_mock_http.Tracker.{RequestLog, Tracker, new_tracker, next, stamped, log, clear}
use pmp_mock_http.Tracker.History.{Call, logged, cleared, run, max_logs-run}

-- The ids count up to the next one, without a gap, modulo 2^64.
abbrev pub Numbered : List RequestLog → ℕ → Type 0
Numbered [] n = Unit
Numbered (e ∷ es) n = ((e.id + length (e ∷ es)) % 2 ^ 64 ≡ n) × Numbered es n

Numbered-append :
    (es : List RequestLog) (n now : ℕ) (entry : RequestLog)
    → n < 2 ^ 64
    → Numbered es n
    → Numbered (es ++ stamped n now entry ∷ []) (next n)
Numbered-append [] n now entry b h = (refl, tt)
Numbered-append (e ∷ es) n now entry b (h, hs) = (
  omega (arith, length-append es (stamped n now entry ∷ [])),
  Numbered-append es n now entry b hs,
)

Numbered-drop : (k : ℕ) (es : List RequestLog) (n : ℕ) → Numbered es n → Numbered (drop k es) n
Numbered-drop zero es n h = h
Numbered-drop (suc k) [] n h = tt
Numbered-drop (suc k) (e ∷ es) n (_, h) = Numbered-drop k es n h

Numbered-get :
    (es : List RequestLog) (n i : ℕ) (e : RequestLog)
    → Numbered es n
    → get_elem? es i ≡ some e
    → ((e.id + (length es - i)) % 2 ^ 64 ≡ n) × (i < length es)
Numbered-get [] n i e h found = cc
Numbered-get (x ∷ es) n zero e (h, _) found = ground arith
Numbered-get (x ∷ es) n (suc i) e (_, h) found = ground (arith, Numbered-get es n i e h)

-- One id cannot stand at two distances from the next one, both at most 2^64.
turned :
    (id n len i j : ℕ)
    → len ≤ 2 ^ 64
    → i < j
    → j < len
    → (id + (len - i)) % 2 ^ 64 ≡ n
    → (id + (len - j)) % 2 ^ 64 ≡ n
    → ⊥
turned id n len i j small lt inside p q = omega arith

pub record IsValid (t : Tracker) : Type 0 where
  pub positive : 0 < t.max_logs
  pub bounded : length t.logs ≤ t.max_logs
  pub in_range : t.next_id < 2 ^ 64
  pub numbered : Numbered t.logs t.next_id

new_tracker-IsValid : (max : ℤ) → IsValid (new_tracker max)
unfolding new_tracker
new_tracker-IsValid max = record {
  positive = ground arith;
  bounded = omega arith;
  in_range = omega arith;
  numbered = tt;
}

log-IsValid : (t : Tracker) (now : ℕ) (entry : RequestLog) → IsValid t → IsValid (log t now entry)
unfolding log
log-IsValid t now entry v =
    let es : List RequestLog = t.logs ++ stamped t.next_id now entry ∷ [] in
    let all = Numbered-append t.logs t.next_id now entry v.in_range v.numbered in
    elim (Bool-cases (ltb t.max_logs (length es))) [
      | inl long ↦ record {
        positive = v.positive;
        bounded = rw long (omega (arith, length-drop (length es - t.max_logs) es));
        in_range = omega arith;
        numbered = rw long (Numbered-drop (length es - t.max_logs) es (next t.next_id) all);
      }
      | inr short ↦ record {
        positive = v.positive;
        bounded = rw short (ground arith);
        in_range = omega arith;
        numbered = rw short all;
      }
    ]

clear-IsValid : (t : Tracker) → IsValid t → IsValid (clear t)
unfolding clear
clear-IsValid t v = record {
  positive = v.positive;
  bounded = omega arith;
  in_range = v.in_range;
  numbered = tt;
}

run-IsValid : (t : Tracker) (calls : List Call) → IsValid t → IsValid (run t calls)
unfolding run
run-IsValid t [] v = v
run-IsValid t (logged now entry ∷ calls) v =
    run-IsValid (log t now entry) calls (log-IsValid t now entry v)
run-IsValid t (cleared ∷ calls) v = run-IsValid (clear t) calls (clear-IsValid t v)

-- After any calls on a new tracker that holds fewer than 2^64 entries at most, two entries at
-- different places of the log have different ids.
pub run-distinct_ids :
    (max : ℤ) (calls : List Call) (i j : ℕ) (a b : RequestLog)
    → (new_tracker max).max_logs ≤ 2 ^ 64
    → i < j
    → get_elem? (run (new_tracker max) calls).logs i ≡ some a
    → get_elem? (run (new_tracker max) calls).logs j ≡ some b
    → a.id ≢ b.id
run-distinct_ids max calls i j a b small lt at_i at_j same =
    let t : Tracker = run (new_tracker max) calls in
    let bound : t.max_logs ≡ (new_tracker max).max_logs = max_logs-run (new_tracker max) calls in
    let v = run-IsValid (new_tracker max) calls (new_tracker-IsValid max) in
    let (ni, bi) = Numbered-get t.logs t.next_id i a v.numbered at_i in
    let (nj, bj) = Numbered-get t.logs t.next_id j b v.numbered at_j in
    turned a.id t.next_id (length t.logs) i j (omega (arith, v.bounded, bound)) lt bj ni
      (rw same nj)
