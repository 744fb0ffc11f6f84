-- ===== src/Sse/RoundTrip.antt =====
-- What a client reads of the events that are sent.
use pmp_mock_http.Prelude.{
  eq_iff, Option, leb, ◌&&◌, ap, ℤ, pos, negsuc, ltb_ℤ, String, ◌<>◌, decimal, Bool, true, false,
  not, some, List, [], ◌∷◌, ◌==◌, if◌then◌else◌, ◌≡◌, refl, ◌∙◌, arith, all_runes, all_runes-append,
  all_runes-decimal, suc, All,
}
use Prim.Native.Char.{code}
use text.Mathlib.TextLemmas.{nil-append, append_assoc}
use pmp_mock_http.Management.Manager.{signed}
use pmp_mock_http.Sse.Types.{SseExternals, Effect, Call, send, send_event_of, close, sleep_for}
use pmp_mock_http.Sse.Script.{calls}
use pmp_mock_http.Sse.Reader.{
  Fields, idle, is_digits, is_without_nul, ends_line, is_one_line, is_blank, read_stream,
  read_field, read_field-event, read_field-id, read_field-retry, read_field-data, read_stream-field,
  read_stream-blank, read_lines, lines_from,
}
use pmp_mock_http.Sse.Wire.{wire, optional, event_wire, wire_of, wire_of_all, calls-wire}

-- The event that a client should read, with the id and the time of the events before where it has
-- none of its own.
abbrev pub event_of : String → Option String → String → String → String → ℤ → Fields
event_of last_id last_retry event_type event_data id retry = record {
  event_type = event_type;
  last_id = if id == "" then last_id else id;
  retry = if ltb_ℤ (pos 0) retry then some (signed retry) else last_retry;
  data_lines = event_data ∷ [];
}

signed-is_digits : (n : ℤ) → ltb_ℤ (pos 0) n ≡ true → is_digits (signed n) ≡ true
unfolding all_runes
signed-is_digits (pos n) h = all_runes-decimal (λ c. leb b'0' (code c) && leb (code c) b'9') n refl
signed-is_digits (negsuc n) h = absurd (ground (arith, h))

signed-is_one_line : (n : ℤ) → is_one_line (signed n) ≡ true
unfolding all_runes ends_line
signed-is_one_line (pos n) = all_runes-decimal (λ c. not (ends_line c)) n refl
signed-is_one_line (negsuc n) =
    all_runes-append (λ c. not (ends_line c)) "-" (decimal (suc n)) refl
      (all_runes-decimal (λ c. not (ends_line c)) (suc n) refl)

read-optional :
    (given : Bool) (name v rest : String) (fields result : Fields)
    → is_one_line name ≡ true
    → is_blank name ≡ false
    → is_one_line v ≡ true
    → (given ≡ true → read_field (name <> v) fields ≡ result)
    → read_stream fields (optional given (name <> (v <> "\n")) <> rest)
      ≡ read_stream (if given then result else fields) rest
read-optional true name v rest fields result one visible one' e =
    read_stream-field fields name v rest one visible one' ∙ ap (λ f. read_stream f rest) (e refl)
read-optional false name v rest fields result one visible one' e =
    ap (read_stream fields) (nil-append rest)

read-data :
    (v rest : String) (fields : Fields)
    → fields.data_lines ≡ []
    → is_one_line v ≡ true
    → read_stream fields ((("data: " <> (v <> "\n")) <> "\n") <> rest)
      ≡ record fields { data_lines = v ∷ [] } ∷ read_stream (idle fields.last_id fields.retry) rest
unfolding all_runes ends_line is_blank
read-data v rest fields empty one =
    ap (read_stream fields) (append_assoc ("data: " <> (v <> "\n")) "\n" rest)
    ∙ read_stream-field fields "data: " v ("\n" <> rest) refl refl one
    ∙ ap (λ f. read_stream f ("\n" <> rest)) (read_field-data v fields ∙ ground (arith, empty))
    ∙ read_stream-blank (record fields { data_lines = v ∷ [] }) v [] rest refl

-- Texts without line ends in an event, and an id without U+0000.
abbrev pub AreOneLine : String → String → String → Type 0
AreOneLine event_type event_data id =
    (is_one_line event_type ≡ true)
    × (is_one_line event_data ≡ true)
    × (is_one_line id ≡ true)
    × (is_without_nul id ≡ true)

read-event :
    (last_id : String) (last_retry : Option String) (event_type event_data id : String) (retry : ℤ)
    (rest : String)
    → AreOneLine event_type event_data id
    → read_stream (idle last_id last_retry) (event_wire event_type event_data id retry <> rest)
      ≡ event_of last_id last_retry event_type event_data id retry
        ∷ read_stream
            (idle
              (event_of last_id last_retry event_type event_data id retry).last_id
              (event_of last_id last_retry event_type event_data id retry).retry)
            rest
unfolding event_wire all_runes ends_line is_blank
read-event last_id last_retry event_type event_data id retry rest
      (one_type, one_data, one_id, plain) =
    let start = idle last_id last_retry in
    let f = if not (event_type == "") then record start { event_type = event_type } else start in
    let g = if not (id == "") then record f { last_id = id } else f in
    let h = if ltb_ℤ (pos 0) retry then record g { retry = some (signed retry) } else g in
    let empty : h.data_lines ≡ [] = ground arith in
    ap (read_stream start) (simp append_assoc)
    ∙ read-optional (not (event_type == "")) "event: " event_type
        (optional (not (id == "")) ("id: " <> (id <> "\n"))
          <> (optional (ltb_ℤ (pos 0) retry) ("retry: " <> (signed retry <> "\n"))
              <> ((("data: " <> (event_data <> "\n")) <> "\n") <> rest)))
        start (record start { event_type = event_type }) refl refl one_type
        (λ given. read_field-event event_type start)
    ∙ read-optional (not (id == "")) "id: " id
        (optional (ltb_ℤ (pos 0) retry) ("retry: " <> (signed retry <> "\n"))
          <> ((("data: " <> (event_data <> "\n")) <> "\n") <> rest))
        f (record f { last_id = id }) refl refl one_id (λ given. read_field-id id f plain)
    ∙ read-optional (ltb_ℤ (pos 0) retry) "retry: " (signed retry)
        ((("data: " <> (event_data <> "\n")) <> "\n") <> rest) g
        (record g { retry = some (signed retry) }) refl refl (signed-is_one_line retry)
        (λ given. read_field-retry (signed retry) g (signed-is_digits retry given))
    ∙ read-data event_data rest h empty one_data
    ∙ ap (λ (e : Fields). e ∷ read_stream (idle e.last_id e.retry) rest)
        (ground (arith, eq_iff event_type ""))

-- The calls of a script with an event in them, and that event.
abbrev pub read_back : String → Option String → List Call → List Fields
read_back last_id last_retry [] = []
read_back last_id last_retry (send text ∷ cs) =
    event_of last_id last_retry "" text "" (pos 0) ∷ read_back last_id last_retry cs
read_back last_id last_retry (send_event_of event_type text id retry ∷ cs) =
    let e = event_of last_id last_retry event_type text id retry in
    e ∷ read_back e.last_id e.retry cs
read_back last_id last_retry (close ∷ cs) = read_back last_id last_retry cs
read_back last_id last_retry (sleep_for ms ∷ cs) = read_back last_id last_retry cs

abbrev pub IsOneLineCall : Call → Type 0
IsOneLineCall (send text) = AreOneLine "" text ""
IsOneLineCall (send_event_of event_type text id retry) = AreOneLine event_type text id
IsOneLineCall close = Unit {0}
IsOneLineCall (sleep_for ms) = Unit {0}

read_back_lem :
    (last_id : String) (last_retry : Option String) (cs : List Call)
    → All IsOneLineCall cs
    → read_stream (idle last_id last_retry) (wire_of_all cs) ≡ read_back last_id last_retry cs
unfolding wire_of_all wire_of read_stream read_lines lines_from
read_back_lem last_id last_retry [] one = refl
read_back_lem last_id last_retry (send text ∷ cs) (one, more) =
    read-event last_id last_retry "" text "" (pos 0) (wire_of_all cs) one
    ∙ ap (λ r. event_of last_id last_retry "" text "" (pos 0) ∷ r)
        (read_back_lem last_id last_retry cs more)
read_back_lem last_id last_retry (send_event_of event_type text id retry ∷ cs) (one, more) =
    let e = event_of last_id last_retry event_type text id retry in
    read-event last_id last_retry event_type text id retry (wire_of_all cs) one
    ∙ ap (λ r. e ∷ r) (read_back_lem e.last_id e.retry cs more)
read_back_lem last_id last_retry (close ∷ cs) (one, more) =
    ap (read_stream (idle last_id last_retry)) (nil-append (wire_of_all cs))
    ∙ read_back_lem last_id last_retry cs more
read_back_lem last_id last_retry (sleep_for ms ∷ cs) (one, more) =
    ap (read_stream (idle last_id last_retry)) (nil-append (wire_of_all cs))
    ∙ read_back_lem last_id last_retry cs more

-- If every write reaches the client, and no type, data or id that the calls of a script give has a
-- line end in it, nor an id U+0000, a client that reads the stream as the WHATWG specification says,
-- from a last id and a reconnection time, gets exactly the events that the script sent, in their
-- order, each with its type and data, and with its id and retry or else those of the events before;
-- calls of close and sleep send nothing.
pub calls-read :
    (x : SseExternals) (last_id : String) (last_retry : Option String) (cs : List Call)
    → ((done : List Effect) → x.write_fails done ≡ false)
    → All IsOneLineCall cs
    → read_stream (idle last_id last_retry) (wire (calls x cs [])) ≡ read_back last_id last_retry cs
unfolding wire
calls-read x last_id last_retry cs up one =
    ap (read_stream (idle last_id last_retry)) (calls-wire x up cs [] ∙ nil-append (wire_of_all cs))
    ∙ read_back_lem last_id last_retry cs one
