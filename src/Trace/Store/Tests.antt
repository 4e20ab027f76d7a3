-- ===== src/Trace/Store/Tests.antt =====
-- A ring of two entries.
use llm_api_router.Prelude.{String, ◌≡◌, refl, true, false, none, List, [], ◌∷◌, pos, inl, arith}
use llm_api_router.Domain.Settings.{TraceSettings}
use llm_api_router.Trace.Store.{Store, new_store, list}
use llm_api_router.Trace.Store.Ring.{IsRing, adds, list-adds}

abbrev settings : TraceSettings
settings = record { enabled = true; seconds = pos 60; models = []; servers = [] }

abbrev full : Store String
full = record {
  entries = "c" ∷ "b" ∷ [];
  ring_idx = 1;
  count = 2;
  max = 2;
  enabled = false;
  expires_at = none;
  models = [];
  servers = [];
}

abbrev full-IsRing : IsRing full
full-IsRing = record {
  has_room = omega arith;
  slots = refl;
  next_slot = omega arith;
  filled = omega arith;
  fills_up = inl (omega arith);
}

abbrev empty : String
empty = ""

abbrev added : List String
added = "a" ∷ "b" ∷ "c" ∷ []

list-adds_example : list (adds (new_store empty 0 2 settings) added) ≡ "b" ∷ "c" ∷ []
list-adds_example = list-adds empty 0 2 settings added (omega arith)
