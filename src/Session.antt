-- ===== src/Session.antt =====
-- internal/util/httpsession.go: the requests in progress on a route, by their ids, each with the
-- reference of the channel on which its caller waits for the response.
pub mod CloseAll
use oes_birger.Prelude.{ℕ, String, List, [], ◌∷◌, Option, none, some, lookup, insert, delete}
use oes_birger.Channel.{Chan, close, update}
use oes_birger.Tunnel.Messages.{MessageWrapper}

abbrev pub Chans : Type 0
Chans = ℕ → Chan MessageWrapper

pub record SessionList : Type 0 where
  pub m : List (String × ℕ)

unfoldable pub make_session_list : SessionList
make_session_list = record { m = [] }

unfoldable pub add : String → ℕ → SessionList → SessionList
add id c s = record { m = insert id c s.m }

unfoldable pub find_unlocked : String → SessionList → Option ℕ
find_unlocked id s = lookup id s.m

unfoldable pub find : String → SessionList → Option ℕ
find id s = lookup id s.m

unfoldable pub remove_unlocked : String → SessionList → SessionList
remove_unlocked id s = record { m = delete id s.m }

unfoldable pub remove : String → SessionList → SessionList
remove id s = record { m = delete id s.m }

-- The loop that closes the channels; `none` is a panic.
unfoldable pub close_each : List (String × ℕ) → Chans → Option Chans
close_each [] chans = some chans
close_each ((id, c) ∷ m) chans = elim (close (chans c)) [
  | none ↦ none
  | some closed ↦ close_each m (update chans c closed)
]

-- The list is emptied after every channel is closed.
unfoldable pub close_all : SessionList → Chans → Option (SessionList × Chans)
unfolding close_each
close_all s chans = elim (close_each s.m chans) [
  | none ↦ none
  | some chans' ↦ some (record { m = [] }, chans')
]
