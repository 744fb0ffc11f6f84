-- ===== src/WebSocket/Limit.antt =====
-- How many connections a handler may come to have.
use pmp_mock_http.Prelude.{ℕ, ◌+◌, ◌≤◌, ◌<◌, pos, some, List, [], ◌∷◌, length, ◌≡◌, arith}
use pmp_mock_http.Models.{WebSocketConfig}
use pmp_mock_http.WebSocket.Registry.{
  Hub, new_hub, is_full, without, get_connection_count, admit, register, give_up, leave, Step,
  admits, refuses, fails_to_upgrade, registers, leaves, Reach, starts, steps,
}

length-without : (conn : ℕ) (cs : List ℕ) → length (without conn cs) ≤ length cs
unfolding without
length-without conn [] = omega arith
length-without conn (c ∷ cs) = ground (arith, length-without conn cs)

module _ (config : WebSocketConfig) (limit : ℕ) (limited : config.max_connections ≡ pos limit)
    (positive : 0 < limit) where
  -- The connections and those that are about to be registered.
  abbrev HasRoom : ℕ → Hub → Type 0
  HasRoom overlap h = length h.connections + h.admitted < limit + overlap

  Step-HasRoom :
      (overlap : ℕ) {h h' : Hub}
      → 0 < overlap
      → HasRoom overlap h
      → Step (some config) h h'
      → h'.admitted ≤ overlap
      → HasRoom overlap h'
  unfolding admit register give_up leave is_full get_connection_count
  Step-HasRoom overlap o room (admits h free) small = ground (arith, limited)
  Step-HasRoom overlap o room (refuses h full) small = room
  Step-HasRoom overlap o room (fails_to_upgrade h pending) small = omega arith
  Step-HasRoom overlap o room (registers h conn pending) small =
      omega (arith, length-without conn h.connections)
  Step-HasRoom overlap o room (leaves h conn) small =
      omega (arith, length-without conn h.connections)

  Reach-HasRoom :
      (overlap : ℕ) {h : Hub} → 0 < overlap → Reach (some config) overlap h → HasRoom overlap h
  unfolding new_hub
  Reach-HasRoom overlap o starts = omega arith
  Reach-HasRoom overlap o (steps reach step small) =
      Step-HasRoom overlap o (Reach-HasRoom overlap o reach) step small

  -- If at most `overlap` calls are ever between their test of the limit and the registration of
  -- their connection, a handler never has more connections than its limit and `overlap - 1` more; so
  -- that the limit is kept if the calls do not overlap there.
  pub Reach-limit :
      (overlap : ℕ) (h : Hub)
      → 0 < overlap
      → Reach (some config) overlap h
      → get_connection_count h < limit + overlap
  unfolding get_connection_count
  Reach-limit overlap h o reach = omega (arith, Reach-HasRoom overlap o reach)
