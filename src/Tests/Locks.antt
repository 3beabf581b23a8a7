-- ===== src/Tests/Locks.antt =====
-- A client that goes away in the middle of its response.
use oes_birger.Prelude.{ℕ, refl, true, false, List, [], ◌∷◌, some, none, lookup, if◌then◌else◌, eqb}
use oes_birger.Channel.{update}
use oes_birger.Service.Handler.{Call, Writer, WriteOutcome, write_error, HandlerState, initial}
use oes_birger.Control.Locked.{
  Goroutines, receiving, Steps, here, next, client_leaves, client_comes,
}
use oes_birger.Control.Locked.Stuck.{IsStuck, chunk, at_second, chunk-IsStuck}

abbrev closed_connection : List Call → List ℕ → WriteOutcome
closed_connection calls bytes = write_error

abbrev after_head : HandlerState
after_head = record { seen_header = true; is_chunked = true; clean_close = false }

abbrev writer : Writer
writer = record { header = []; calls = [] }

-- Two requests wait; that on channel 4 has had its head.
abbrev in_progress : Goroutines
in_progress = record {
  sessions = record { m = ("r0", 3) ∷ ("r1", 4) ∷ [] };
  loop = receiving;
  handlers = λ c. if eqb c 4 then some (after_head, writer) else none;
  requests = ("r2", 5) ∷ [];
  cancels = [];
}

abbrev stopped : Goroutines
stopped = at_second in_progress "r1" 4 (33 ∷ [])

-- The client's cancellation comes, and another client.
abbrev later : Goroutines
later = record stopped {
  cancels = "r1" ∷ [];
  handlers = update stopped.handlers 7 (some (initial, writer));
  requests = ("r2", 5) ∷ ("r3", 7) ∷ [];
}

chunk-IsStuck_example :
    Steps closed_connection in_progress stopped
    × IsStuck "r1" false 4 (chunk "r1" (33 ∷ [])) in_progress.sessions later
unfolding lookup
chunk-IsStuck_example =
    chunk-IsStuck closed_connection in_progress "r1" 4 104 33 (105 ∷ []) [] after_head writer later
      refl refl refl refl refl
      (next (next here (client_leaves "r1")) (client_comes "r3" 7 writer refl))
