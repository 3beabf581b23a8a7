-- ===== src/Session/CloseAll.antt =====
-- What `CloseAll` does, and when it is safe.
use oes_birger.Prelude.{
  ℕ, String, ◌≡◌, refl, Bool, true, false, ◌||◌, List, [], ◌∷◌, some, if◌then◌else◌, eqb, arith,
}
use oes_birger.Channel.{Chan, close, update}
use oes_birger.Session.{Chans, SessionList, close_each, close_all}

-- The channel is in the list.
abbrev pub holds : ℕ → List (String × ℕ) → Bool
holds c [] = false
holds c ((id, d) ∷ m) = eqb c d || holds c m

-- No channel stands under two ids, and each is open.
abbrev pub IsOpenOnce : Chans → List (String × ℕ) → Type 0
IsOpenOnce chans [] = Unit
IsOpenOnce chans ((id, c) ∷ m) =
    ((chans c).closed ≡ false) × (holds c m ≡ false) × IsOpenOnce chans m

pub IsOpenOnce-update :
    (chans : Chans) (c : ℕ) (v : Chan _) (m : List (String × ℕ))
    → holds c m ≡ false
    → IsOpenOnce chans m
    → IsOpenOnce (update chans c v) m
unfolding update
IsOpenOnce-update chans c v [] h o = tt
IsOpenOnce-update chans c v ((id, d) ∷ m) h o = ground (arith, IsOpenOnce-update chans c v m)

-- What the channels are after the loop.
abbrev pub after_close : Chans → List (String × ℕ) → Chans
after_close chans m c = if holds c m then record (chans c) { closed = true } else chans c

close_each_lem :
    (m : List (String × ℕ)) (chans : Chans)
    → IsOpenOnce chans m
    → (chans' : Chans) × (close_each m chans ≡ some chans')
      × ((c : ℕ) → chans' c ≡ after_close chans m c)
unfolding close_each close update
close_each_lem [] chans o = (chans, refl, λ c. refl)
close_each_lem ((id, d) ∷ m) chans o =
    let closed : Chan _ = record (chans d) { closed = true } in
    let (chans', e, h) =
      close_each_lem m (update chans d closed) (IsOpenOnce-update chans d closed m o.1 o.2) in
    (chans', ground arith, λ c. ground (arith, h c))

-- If no channel is listed twice and none is closed, `CloseAll` closes every listed channel, leaves
-- the others and all that was sent as they were, and empties the list.
pub close_all_lem :
    (s : SessionList) (chans : Chans)
    → IsOpenOnce chans s.m
    → (chans' : Chans) × (close_all s chans ≡ some (record { m = [] }, chans'))
      × ((c : ℕ) → chans' c ≡ after_close chans s.m c)
unfolding close_all
close_all_lem s chans o =
    let (chans', e, h) = close_each_lem s.m chans o in (chans', rw (e, close_all), h)
