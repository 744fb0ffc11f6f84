-- ===== src/OAuth/Userinfo.antt =====
-- The userinfo endpoint.
use pmp_mock_http.Prelude.{
  ℕ, String, trim_prefix, starts_with, Option, none, some, get, ltb, if◌then◌else◌,
}
use pmp_mock_http.OAuth.Types.{TokenInfo, Reply, http_error, user_info}
use pmp_mock_http.OAuth.Provider.{Provider}

unfoldable pub described : ℕ → Option TokenInfo → Reply
described now none = http_error "invalid_token" 401
described now (some info) =
    if ltb info.expires_at now
    then http_error "invalid_token" 401
    else user_info
        (record { user_id = info.user_id; name = "Mock User"; email = "user@example.com" })

-- The argument is the Authorization header.
unfoldable pub handle_user_info : Provider → ℕ → String → Reply
unfolding described
handle_user_info p now auth_header =
    if starts_with auth_header "Bearer "
    then described now (get p.tokens (trim_prefix auth_header "Bearer "))
    else http_error "invalid_token" 401
