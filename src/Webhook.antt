-- ===== src/Webhook.antt =====
-- internal/webhook/webhook.go: the runner that posts to a webhook. What was sent on its channel is taken off
-- in order, one turn of `Run` each, and each message is posted by a goroutine of its own; `marshal` is
-- `json.Marshal`, and `post` says what `http.Post` comes to: a status, or no response.
use oes_birger.Prelude.{
  ℕ, String, ◌||◌, ltb, List, [], ◌∷◌, ◌++◌, Option, none, some, if◌then◌else◌,
}
use oes_birger.Authority.{Bytes}
use oes_birger.Channel.{Chan, open_chan, send, close}

pub record Runner (A : Type 0) : Type 0 where
  pub url : String
  pub rc : Chan A

-- What has been posted, with what was only logged: a message without JSON, a post without a response, and a
-- status that is not one of success.
pub data Event : Type 0 where
  posted : String → Bytes → Event
  not_marshalled not_sent : Event
  refused : ℕ → Event

abbrev answered : Option ℕ → List Event
answered none = not_sent ∷ []
answered (some status) = if ltb status 200 || ltb 299 status then refused status ∷ [] else []

module _ {A : Type 0} where
  unfoldable pub new_runner : String → Runner A
  new_runner url = record { url = url; rc = open_chan }

  -- `none` is a panic.
  unfoldable pub close_runner : Runner A → Option (Runner A)
  unfolding close
  close_runner wr = elim (close wr.rc) [ none ↦ none | some rc ↦ some (record wr { rc = rc }) ]

  unfoldable pub send_hook : A → Runner A → Option (Runner A)
  unfolding send
  send_hook msg wr = elim (send msg wr.rc) [ none ↦ none | some rc ↦ some (record wr { rc = rc }) ]

  module _ (marshal : A → Option Bytes) (post : String → Bytes → Option ℕ) where
    unfoldable pub perform : String → A → List Event
    perform url msg = elim (marshal msg) [
      | none ↦ not_marshalled ∷ []
      | some json ↦ posted url json ∷ answered (post url json)
    ]

    -- The loop over what arrives on the channel.
    unfoldable pub run : String → List A → List Event
    unfolding perform
    run url [] = []
    run url (msg ∷ more) = perform url msg ++ run url more
