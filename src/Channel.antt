-- ===== src/Channel.antt =====
-- A Go channel as its user sees it: what has been sent on it, and whether it is closed. A send on a
-- closed channel panics, and so does a second close. Who waits for whom is not part of a channel:
-- a send stands for the moment at which it completes.
use oes_birger.Prelude.{
  ℕ, Bool, true, false, List, [], ◌∷◌, ◌++◌, Option, none, some, if◌then◌else◌, eqb,
}

pub record Chan {ℓ} (A : Type ℓ) : Type ℓ where
  pub sent : List A
  pub closed : Bool

module _ {ℓ} {A : Type ℓ} where
  abbrev pub open_chan : Chan A
  open_chan = record { sent = []; closed = false }

  -- `none` is the panic.
  unfoldable pub send : A → Chan A → Option (Chan A)
  send a c = if c.closed then none else some (record c { sent = c.sent ++ a ∷ [] })

  unfoldable pub close : Chan A → Option (Chan A)
  close c = if c.closed then none else some (record c { closed = true })

  -- A store of channels, by their references.
  unfoldable pub update : (ℕ → A) → ℕ → A → ℕ → A
  update store p a q = if eqb q p then a else store q
