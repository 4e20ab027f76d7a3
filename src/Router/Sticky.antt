-- ===== src/Router/Sticky.antt =====
-- router/sticky.go: the backend that a conversation is pinned to.
use llm_api_router.Prelude.{
  ℕ, ◌+◌, ◌*◌, ◌^◌, String, not, ◌||◌, none, some, ltb, leb, length, is_empty, lookup, insert,
  delete, retain, if◌then◌else◌,
}
use llm_api_router.Router.State.{Router}

-- Nanoseconds.
abbrev pub sticky_ttl : ℕ
sticky_ttl = 30 * 60 * 10 ^ 9

abbrev pub sticky_sweep_at : ℕ
sticky_sweep_at = 4096

-- `""` is no pin.
unfoldable pub sticky_get : Router → ℕ → String → Router × String
sticky_get r now key = if is_empty key then (r, "") else elim (lookup key r.pins) [
  | none ↦ (r, "")
  | some p ↦ if ltb p.expires now then (record r { pins = delete key r.pins }, "") else (
    record r { pins = insert key (record p { expires = now + sticky_ttl }) r.pins },
    p.server_id,
  )
]

unfoldable pub sticky_put : Router → ℕ → String → String → Router
sticky_put r now key server_id =
    if is_empty key || is_empty server_id
    then r
    else let pins =
        if leb sticky_sweep_at (length r.pins)
        then retain (λ k p. not (ltb p.expires now)) r.pins
        else r.pins in
      record r {
        pins = insert key (record { server_id = server_id; expires = now + sticky_ttl }) pins;
      }
