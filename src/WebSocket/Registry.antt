-- ===== src/WebSocket/Registry.antt =====
-- The connections of a handler, and the steps that concurrent calls of `HandleConnection` take. The
-- test of the limit and the registration hold the lock one after the other, so that between them
-- other calls may take steps.
use pmp_mock_http.Prelude.{
  ℕ, suc, ◌-◌, ◌≤◌, ◌<◌, pos, ltb_ℤ, nat_eq, Bool, true, false, not, ◌&&◌, Option, none, some, List,
  [], ◌∷◌, length, if◌then◌else◌, ◌≡◌,
}
use pmp_mock_http.Models.{WebSocketConfig}

-- The registered connections by their numbers, and how many calls have passed the test and have not
-- registered theirs.
pub record Hub : Type 0 where
  pub connections : List ℕ
  pub admitted : ℕ

unfoldable pub new_hub : Hub
new_hub = record { connections = []; admitted = 0 }

-- `MaxConnections > 0 && connCount >= MaxConnections`
unfoldable pub is_full : Option WebSocketConfig → ℕ → Bool
is_full none count = false
is_full (some config) count =
    ltb_ℤ (pos 0) config.max_connections && not (ltb_ℤ (pos count) config.max_connections)

unfoldable pub without : ℕ → List ℕ → List ℕ
without conn [] = []
without conn (c ∷ cs) = let rest = without conn cs in if nat_eq c conn then rest else c ∷ rest

unfoldable pub get_connection_count : Hub → ℕ
get_connection_count h = length h.connections

unfoldable pub admit : Hub → Hub
admit h = record h { admitted = suc h.admitted }

-- `h.connections[conn] = true`
unfoldable pub register : ℕ → Hub → Hub
register conn h = record {
  connections = conn ∷ without conn h.connections;
  admitted = h.admitted - 1;
}

unfoldable pub give_up : Hub → Hub
give_up h = record h { admitted = h.admitted - 1 }

-- `delete(h.connections, conn)`
unfoldable pub leave : ℕ → Hub → Hub
leave conn h = record h { connections = without conn h.connections }

-- A step of one of the calls: it passes the test, or is refused with the status 503; its upgrade
-- fails, or its connection is registered; the connection ends.
pub data Step (config : Option WebSocketConfig) : Hub → Hub → Type 0 where
  admits : (h : Hub) → is_full config (get_connection_count h) ≡ false → Step config h (admit h)
  refuses : (h : Hub) → is_full config (get_connection_count h) ≡ true → Step config h h
  fails_to_upgrade : (h : Hub) → 0 < h.admitted → Step config h (give_up h)
  registers : (h : Hub) (conn : ℕ) → 0 < h.admitted → Step config h (register conn h)
  leaves : (h : Hub) (conn : ℕ) → Step config h (leave conn h)

-- The hubs that are reached by steps between which at most `overlap` calls are between their test
-- and their registration.
pub data Reach (config : Option WebSocketConfig) (overlap : ℕ) : Hub → Type 0 where
  starts : Reach config overlap new_hub
  steps :
      {h h' : Hub}
      → Reach config overlap h
      → Step config h h'
      → h'.admitted ≤ overlap
      → Reach config overlap h'
