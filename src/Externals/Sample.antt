-- ===== src/Externals/Sample.antt =====
-- Stand-ins for the external libraries, at which the theorems are instantiated: a pattern is a
-- plain text, "[" is an invalid one, a script is a text that the runtime counts.
use pmp_mock_http.Prelude.{ℕ, ◌+◌, true, ◌&&◌, ◌==◌, none, some, leb, if◌then◌else◌}
use pmp_mock_http.Models.{object, cons, nil, boolean}
use pmp_mock_http.Externals.{Externals}

abbrev pub sample : Externals ℕ
sample = record {
  simple_fold = λ c. if leb b'A' c && leb c b'Z' then c + 32 else c;
  match_regexp = λ pattern value. if pattern == "[" then none else some (pattern == value);
  canonical_key = λ key. key;
  json_valid = λ body. body == "{}";
  json_get = λ body path. if path == "missing" then none else some "1";
  marshal = λ schema. some "{}";
  validate = λ schema document. some true;
  set_request = λ vm r. some vm;
  run_string = λ vm script. (
    vm + 1,
    if script == "throw" then none else some (object (cons "matches" (boolean true) nil)),
  );
}
