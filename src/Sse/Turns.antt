-- ===== src/Sse/Turns.antt =====
-- How long a stream runs, and what it sends: its events in turn.
use pmp_mock_http.Prelude.{
  ap, ℕ, zero, suc, ◌+◌, ◌-◌, ◌*◌, ◌%◌, ◌≤◌, ◌<◌, pos, true, false, Option, none, some, List, [],
  ◌∷◌, ◌++◌, length, get_elem?, ◌==◌, ◌≡◌, refl, ◌∙◌, ◌⊎◌, inl, inr, arith,
}
use native.Mathlib.Nat.{mul-add-mod_self_right, mod-eq_of_lt}
use pmp_mock_http.Models.{SseConfig, SseEvent}
use pmp_mock_http.Server.Types.{RequestData}
use pmp_mock_http.Sse.Types.{SseExternals, Effect}
use pmp_mock_http.Sse.Stream.{
  pause, returned, completed, stream_mode, closes, show_event, send_events, next_round, cycle,
  ended, handle_event_sequence, start_keep_alive, stop_keep_alive,
}

module _ (x : SseExternals) (sse : SseConfig) (seen : RequestData) where
  abbrev shown : Option SseEvent → List Effect → List Effect
  shown none done = done
  shown (some event) done = show_event x sse seen event done

  -- The event whose turn it is, counted round and round from the first one.
  abbrev turn : ℕ → Option SseEvent
  turn i = get_elem? sse.events (i % length sse.events)

  -- So many events from the i-th turn on, with a pause between each two.
  abbrev pub played : ℕ → ℕ → List Effect → List Effect
  played zero i done = done
  played (suc zero) i done = shown (turn i) done
  played (suc (suc n)) i done = played (suc n) (i + 1) (shown (turn i) done ++ pause sse.interval)

  module _ (limit : ℕ) (live : (done : List Effect) → x.is_done done ≡ false)
      (closing : sse.close_after ≡ pos limit) where
    abbrev Outcome : List SseEvent → ℕ → ℕ → List Effect → Type 0
    Outcome events sent n done =
        (send_events x sse seen events sent done ≡ returned limit (played (suc n) sent done))
        ⊎ ((after : List Effect) × (send_events x sse seen events sent done
              ≡ completed (sent + length events) after)
            × ((left : ℕ) × (length events + suc left ≡ suc n)
                × (played (suc n) sent done ≡ played (suc left) (sent + length events) after)))

    closes-before : (k : ℕ) → k < limit → closes sse k ≡ false
    unfolding closes
    closes-before k h = ground (arith, closing)

    closes_last : (k : ℕ) → suc k ≡ limit → closes sse (k + 1) ≡ true
    unfolding closes
    closes_last k h = ground (arith, closing)

    turn_first :
        (event : SseEvent) (events : List SseEvent) (sent : ℕ)
        → ((j : ℕ) → j < length (event ∷ events) → turn (sent + j) ≡ get_elem? (event ∷ events) j)
        → turn sent ≡ some event
    turn_first event events sent agree =
        ap turn {x = sent} {y = sent + 0} (omega arith) ∙ agree 0 (omega arith)

    send_events-Outcome :
        (events : List SseEvent) (sent n : ℕ) (done : List Effect)
        → sent + suc n ≡ limit
        → ((j : ℕ) → j < length events → turn (sent + j) ≡ get_elem? events j)
        → Outcome events sent n done
    unfolding send_events
    send_events-Outcome [] sent n done h agree = inr (
      done,
      ap (λ (k : ℕ). completed k done) (omega arith),
      (n, omega arith, ap (λ (k : ℕ). played (suc n) k done) (omega arith)),
    )
    send_events-Outcome (event ∷ events) sent zero done h agree =
        let last = closes_last sent (omega arith) in
        inl (
          rw (live done) (
            rw last (
              rw (turn_first event events sent agree)
                (ap (λ (k : ℕ). returned k (show_event x sse seen event done)) (omega arith)))))
    send_events-Outcome (event ∷ events) sent (suc n) done h agree =
        let after = show_event x sse seen event done ++ pause sse.interval in
        let more = closes-before (sent + 1) (omega arith) in
        let step = turn_first event events sent agree in
        elim (send_events-Outcome events (sent + 1) n after (omega arith) (λ j lt.
          ap turn {x = sent + 1 + j} {y = sent + suc j} (omega arith)
          ∙ agree (suc j) (omega arith))) [
            | inl stops ↦ inl (rw (live done) (rw more (rw step stops)))
            | inr (end, completes, (left, count, plays)) ↦ inr (
              end,
              rw (live done) (rw more (completes ∙ ap (λ (k : ℕ). completed k end) (omega arith))),
              (
                left,
                omega (arith, count),
                rw step (plays ∙ ap (λ (k : ℕ). played (suc left) k end) (omega arith)),
              ),
            )
          ]

    turn_round :
        (q j : ℕ)
        → j < length sse.events
        → turn (q * length sse.events + j) ≡ get_elem? sse.events j
    turn_round q j lt =
        ap (get_elem? sse.events) (mul-add-mod_self_right q (length sse.events) j ∙ mod-eq_of_lt lt)

    -- Each round sends an event at least, so that the fuel need only be the number of those left.
    cycle-played :
        (fuel q n : ℕ) (done : List Effect)
        → 0 < length sse.events
        → (stream_mode sse == "once") ≡ false
        → q * length sse.events + suc n ≡ limit
        → n < fuel
        → cycle x sse seen fuel (q * length sse.events) done
          ≡ some (limit, played (suc n) (q * length sse.events) done)
    unfolding cycle next_round
    cycle-played zero q n done some_event on h enough = elim enough [ ]
    cycle-played (suc fuel) q n done some_event on h enough =
        elim (send_events-Outcome sse.events (q * length sse.events) n done h
          (λ j lt. turn_round q j lt)) [
            | inl stops ↦ rw stops refl
            | inr (end, completes, (left, count, plays)) ↦
                let next : suc q * length sse.events ≡ q * length sse.events + length sse.events =
                  omega arith in
                rw completes (
                  rw on (
                    rw plays (
                      rw (← next) (
                        cycle-played fuel (suc q) left end some_event on
                          (omega (arith, next, count, h)) (omega (arith, count))))))
          ]

    -- A stream of events that is to close after a number of them, to a client that stays connected
    -- and in a mode other than "once", ends; it has sent exactly that number of events, each in its
    -- turn, from the first to the last and again from the first, with the interval between each two.
    -- This needs one round of the loop for each event at most, and holds whether or not the writing
    -- of an event fails.
    pub handle_event_sequence-played :
        (fuel : ℕ) (done : List Effect)
        → 0 < length sse.events
        → (stream_mode sse == "once") ≡ false
        → 0 < limit
        → limit ≤ fuel
        → handle_event_sequence x sse seen fuel done
          ≡ some (stop_keep_alive sse (played limit 0 (start_keep_alive sse done)))
    unfolding handle_event_sequence ended
    handle_event_sequence-played fuel done some_event on positive enough =
        let from : 0 * length sse.events ≡ 0 = omega arith in
        let count : suc (limit - 1) ≡ limit = omega arith in
        let run =
          cycle-played fuel 0 (limit - 1) (start_keep_alive sse done) some_event on (omega arith)
            (omega arith) in
        rw (rw count at (rw from at run)) refl
