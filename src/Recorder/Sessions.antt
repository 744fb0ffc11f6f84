-- ===== src/Recorder/Sessions.antt =====
-- What a recorder holds after a session.
use pmp_mock_http.Prelude.{true, false, List, [], ◌∷◌, ◌++◌, ◌≡◌, refl, ap, ◌∙◌, sym}
use mathlib.Core.List.{append_assoc, append-nil}
use pmp_mock_http.Recorder.{
  RecordedRequest, Recorder, start, stop, record_request, get_recordings, clear,
}

-- The calls of a recorder; a request comes as the entry that it would be.
pub data Call : Type 0 where
  starts stops clears : Call
  sees : RecordedRequest → Call

abbrev see : Recorder → RecordedRequest → Recorder
see r q =
    record_request r q.timestamp q.method q.uri q.headers q.body q.response.status_code
      q.response.headers q.response.body

unfoldable pub run : Recorder → List Call → Recorder
run r [] = r
run r (starts ∷ calls) = run (start r) calls
run r (stops ∷ calls) = run (stop r) calls
run r (clears ∷ calls) = run (clear r) calls
run r (sees q ∷ calls) = run (see r q) calls

abbrev pub all_seen : List RecordedRequest → List Call
all_seen [] = []
all_seen (q ∷ qs) = sees q ∷ all_seen qs

run-append : (r : Recorder) (cs ds : List Call) → run r (cs ++ ds) ≡ run (run r cs) ds
unfolding run
run-append r [] ds = refl
run-append r (starts ∷ cs) ds = run-append (start r) cs ds
run-append r (stops ∷ cs) ds = run-append (stop r) cs ds
run-append r (clears ∷ cs) ds = run-append (clear r) cs ds
run-append r (sees q ∷ cs) ds = run-append (see r q) cs ds

run-recording :
    (kept qs : List RecordedRequest)
    → run (record { enabled = true; recordings = kept }) (all_seen qs)
      ≡ record { enabled = true; recordings = kept ++ qs }
unfolding run record_request
run-recording kept [] = ap (λ l. record { enabled = true; recordings = l }) (sym (append-nil kept))
run-recording kept (q ∷ qs) =
    run-recording (kept ++ q ∷ []) qs
    ∙ ap (λ l. record { enabled = true; recordings = l }) (append_assoc kept (q ∷ []) qs)

run-stopped :
    (kept qs : List RecordedRequest)
    → run (record { enabled = false; recordings = kept }) (all_seen qs)
      ≡ record { enabled = false; recordings = kept }
unfolding run record_request
run-stopped kept [] = refl
run-stopped kept (q ∷ qs) = run-stopped kept qs

-- Whatever was called before, after a start, some requests, a stop and further requests the
-- recordings are the requests between the start and the stop, in their order, and no other.
pub run-session :
    (r : Recorder) (before : List Call) (qs ignored : List RecordedRequest)
    → get_recordings (run r (before ++ starts ∷ (all_seen qs ++ stops ∷ all_seen ignored))) ≡ qs
unfolding run start stop get_recordings
run-session r before qs ignored = ap get_recordings (
    run-append r before (starts ∷ (all_seen qs ++ stops ∷ all_seen ignored))
    ∙ run-append (record { enabled = true; recordings = [] }) (all_seen qs)
        (stops ∷ all_seen ignored)
    ∙ ap (λ s. run s (stops ∷ all_seen ignored)) (run-recording [] qs)
    ∙ run-stopped qs ignored)
