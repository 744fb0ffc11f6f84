-- ===== src/OpenApi/Preferred.antt =====
-- Which response of an operation becomes that of its mock.
use pmp_mock_http.Prelude.{
  ap, ℤ, pos, eq_ℤ, String, Bool, true, false, not, ◌&&◌, ◌||◌, Option, none, some, [], ◌∷◌, Dict,
  get, ◌==◌, ◌≡◌, refl, sym, ◌∙◌, inl, inr, Bool-cases, eq_of_==,
}
use pmp_mock_http.OpenApi.Types.{OpenApiExternals, ResponseDescription, Operation}
use pmp_mock_http.OpenApi.Parser.{Choice, scanned, choose, mock_of, create_mock_from_operation}

neither_true : (b c : Bool) → (not b && not c) ≡ true → (b ≡ false) × (c ≡ false)
neither_true false false e = (refl, refl)
neither_true true c e = cc
neither_true false true e = cc

or_false : (b c : Bool) → b ≡ false → (b || c) ≡ true → c ≡ true
or_false false c e o = o
or_false true c e o = cc

module _ (x : OpenApiExternals) where
  -- A code other than "200" is read as no number, or as one that is neither 200 nor 0.
  abbrev plain_number : Option ℤ → Bool
  plain_number none = true
  plain_number (some n) = not (eq_ℤ n (pos 200)) && not (eq_ℤ n (pos 0))

  abbrev is_plain : String → Bool
  is_plain code = (code == "200") || plain_number (x.scan code)

  -- The codes of an operation are distinct, and plain.
  abbrev pub ArePlain : Dict ResponseDescription → Type 0
  ArePlain [] = Unit {0}
  ArePlain ((code, response) ∷ responses) =
      (get responses code ≡ none) × (is_plain code ≡ true) × ArePlain responses

  -- The first code that is read as a number, and its response.
  abbrev numbered : Option ℤ → ResponseDescription → Choice → Choice
  numbered none response rest = rest
  numbered (some n) response rest = (n, some response)

  abbrev pub first_number : Dict ResponseDescription → Choice
  first_number [] = (pos 0, none)
  first_number ((code, response) ∷ responses) =
      numbered (x.scan code) response (first_number responses)

  abbrev or_else : Option ResponseDescription → ℤ → Choice → Choice
  or_else none n rest = rest
  or_else (some response) n rest = (n, some response)

  -- 200, else 201, else the first number.
  abbrev pub preferred : Dict ResponseDescription → Choice
  preferred responses =
      or_else (get responses "200") (pos 200)
        (or_else (get responses "201") (pos 201) (first_number responses))

  -- The same, where a response is chosen already that is neither of 200 nor of 0.
  abbrev kept : Dict ResponseDescription → Choice → Choice
  kept responses choice =
      or_else (get responses "200") (pos 200) (or_else (get responses "201") (pos 201) choice)

  -- After the code "201" no other one follows.
  kept-created :
      (code : String) (r : ResponseDescription) (responses : Dict ResponseDescription)
      → (code == "201") ≡ true
      → get responses code ≡ none
      → kept responses (pos 201, some r) ≡ or_else (get responses "200") (pos 200) (pos 201, some r)
  kept-created code r responses created distinct =
      let absent : get responses "201" ≡ none =
        ap (get responses) (sym (eq_of_== code "201" created)) ∙ distinct in
      rw absent refl

  choose-kept :
      (responses : Dict ResponseDescription) (n : ℤ) (chosen : Option ResponseDescription)
      → ArePlain responses
      → eq_ℤ n (pos 200) ≡ false
      → eq_ℤ n (pos 0) ≡ false
      → choose x responses (n, chosen) ≡ kept responses (n, chosen)
  unfolding choose get scanned
  choose-kept [] n chosen plain other given = refl
  choose-kept ((code, r) ∷ responses) n chosen (distinct, ok, plain) other given =
      elim (Bool-cases (code == "200")) [
        | inl found ↦ rw found refl
        | inr later ↦ elim (Bool-cases (code == "201")) [
          | inl created ↦
              let next = choose-kept responses (pos 201) (some r) plain refl refl in
              rw later
                (rw created (rw other (next ∙ kept-created code r responses created distinct)))
          | inr neither ↦
              let next = choose-kept responses n chosen plain other given in
              rw later (rw neither (rw given next))
        ]
      ]

  -- What follows when a code that is neither 200 nor 201 is read first.
  choose-numbered :
      (o : Option ℤ) (r : ResponseDescription) (responses : Dict ResponseDescription)
      → plain_number o ≡ true
      → ArePlain responses
      → choose x responses (pos 0, none) ≡ preferred responses
      → choose x responses (scanned x o r (pos 0, none))
        ≡ kept responses (numbered o r (first_number responses))
  unfolding scanned
  choose-numbered none r responses ok plain rest = rest
  choose-numbered (some n) r responses ok plain rest =
      let (other, given) = neither_true (eq_ℤ n (pos 200)) (eq_ℤ n (pos 0)) ok in
      choose-kept responses n (some r) plain other given

  choose-preferred :
      (responses : Dict ResponseDescription)
      → ArePlain responses
      → choose x responses (pos 0, none) ≡ preferred responses
  unfolding choose get
  choose-preferred [] plain = refl
  choose-preferred ((code, r) ∷ responses) (distinct, ok, plain) =
      elim (Bool-cases (code == "200")) [
        | inl found ↦ rw found refl
        | inr later ↦ elim (Bool-cases (code == "201")) [
          | inl created ↦
              let next = choose-kept responses (pos 201) (some r) plain refl refl in
              rw later (rw created (next ∙ kept-created code r responses created distinct))
          | inr neither ↦
              let number : plain_number (x.scan code) ≡ true =
                or_false (code == "200") (plain_number (x.scan code)) later ok in
              rw later (
                rw neither (
                  choose-numbered (x.scan code) r responses number plain
                    (choose-preferred responses plain)))
        ]
      ]

  -- Where the codes of an operation are distinct, and each but "200" is read as no number or as
  -- one that is neither 200 nor 0: its mock has the status and the response of "200", without it
  -- those of "201", and without both those of the first code that is read as a number, in
  -- whatever order the codes come.
  pub create_mock_from_operation-preferred :
      (generate_examples : Bool) (path method : String) (operation : Operation) (priority : ℤ)
      → ArePlain operation.responses
      → create_mock_from_operation x generate_examples path method operation priority
        ≡ mock_of x generate_examples path method operation priority (preferred operation.responses)
  unfolding create_mock_from_operation
  create_mock_from_operation-preferred generate_examples path method operation priority plain =
      ap (mock_of x generate_examples path method operation priority)
        (choose-preferred operation.responses plain)
