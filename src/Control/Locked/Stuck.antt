-- ===== src/Control/Locked/Stuck.antt =====
-- A client that leaves in the middle of a response can stop its agent's connection for good.
use oes_birger.Prelude.{
  subst, ℕ, String, ◌≡◌, refl, sym, ap, ◌∙◌, Bool, true, false, List, [], ◌∷◌, Option, none, some,
  lookup, arith,
}
use oes_birger.Channel.{update}
use oes_birger.Tunnel.Messages.{HttpTunnelControl, http_tunnel_chunked_response}
use oes_birger.Session.{SessionList, find_unlocked}
use oes_birger.Session.CloseAll.{holds}
use oes_birger.Service.Handler.{
  Call, Writer, WriteOutcome, write_error, HandlerState, handle_tunnel_control, handle_chunk,
  handle_data,
}
use oes_birger.Control.Locked.{
  receiving, sending, destination, Goroutines, waits_on, Step, begin_send, pass_over, complete_send,
  add_request, remove_request, client_comes, client_leaves, Steps, here, next,
}

-- The loop holds the lock and sends to a handler that has returned, on a channel that is listed.
pub record IsStuck (id : String) (is_last : Bool) (dest : ℕ) (control : HttpTunnelControl)
    (sessions : SessionList) (g : Goroutines) : Type 0 where
  pub at_send : g.loop ≡ sending id is_last dest control
  pub returned : g.handlers dest ≡ none
  pub listed : holds dest g.sessions.m ≡ true
  pub unchanged : g.sessions ≡ sessions

holds-lookup :
    (id : String) (dest : ℕ) (m : List (String × ℕ)) → lookup id m ≡ some dest → holds dest m ≡ true
unfolding lookup
holds-lookup id dest [] e = cc e
holds-lookup id dest ((j, d) ∷ m) e = ground (arith, holds-lookup id dest m)

sending-dest :
    {i id : String} {l is_last : Bool} {d dest : ℕ} {c control : HttpTunnelControl}
    → sending i l d c ≡ sending id is_last dest control
    → d ≡ dest
sending-dest e = cc e

module _ (accept : List Call → List ℕ → WriteOutcome) (id : String) (is_last : Bool) (dest : ℕ)
    (control : HttpTunnelControl) (sessions : SessionList) where
  Step-IsStuck :
      {g g' : Goroutines}
      → Step accept g g'
      → IsStuck id is_last dest control sessions g
      → IsStuck id is_last dest control sessions g'
  unfolding update
  Step-IsStuck (begin_send c i l d r _ _) s = cc (r, s.at_send)
  Step-IsStuck (pass_over c r _) s = s
  Step-IsStuck {g} (complete_send c i l d state writer r h) s =
      let same : d ≡ dest = sending-dest (sym r ∙ s.at_send) in
      cc (ap g.handlers same, h, s.returned)
  Step-IsStuck (add_request i out requests r _) s = cc (r, s.at_send)
  Step-IsStuck (remove_request i cancels r _) s = cc (r, s.at_send)
  Step-IsStuck {g} (client_comes i out writer own) s = record {
    at_send = s.at_send;
    returned = ground (arith, s.returned, s.listed);
    listed = s.listed;
    unchanged = s.unchanged;
  }
  Step-IsStuck (client_leaves i) s = record {
    at_send = s.at_send;
    returned = s.returned;
    listed = s.listed;
    unchanged = s.unchanged;
  }

  pub Steps-IsStuck :
      {g g' : Goroutines}
      → Steps accept g g'
      → IsStuck id is_last dest control sessions g
      → IsStuck id is_last dest control sessions g'
  Steps-IsStuck here s = s
  Steps-IsStuck (next steps step) s = Step-IsStuck step (Steps-IsStuck steps s)

abbrev pub chunk : String → List ℕ → HttpTunnelControl
chunk id body = http_tunnel_chunked_response (record { id = id; body = body })

-- When the write of a packet to the client fails, the handler returns.
waits_on-write_error :
    (accept : List Call → List ℕ → WriteOutcome) (id : String) (b : ℕ) (bytes : List ℕ)
    (state : HandlerState) (writer : Writer)
    → state.seen_header ≡ true
    → accept writer.calls (b ∷ bytes) ≡ write_error
    → waits_on (handle_tunnel_control accept state (chunk id (b ∷ bytes)) writer) ≡ none
unfolding handle_tunnel_control handle_chunk handle_data
waits_on-write_error accept id b bytes state writer seen failed =
    rw seen (rw (failed, handle_data) refl)

update_self :
    (handlers : ℕ → Option (HandlerState × Writer)) (dest : ℕ) (h : Option (HandlerState × Writer))
    → update handlers dest h dest ≡ h
unfolding update
update_self handlers dest h = ground arith

-- Its loop at the send of the second of two packets, if the handler returns at the first.
abbrev pub at_second : Goroutines → String → ℕ → List ℕ → Goroutines
at_second g id dest body = record g {
  loop = sending id false dest (chunk id body);
  handlers = update g.handlers dest none;
}

module _ (accept : List Call → List ℕ → WriteOutcome) (g : Goroutines) (id : String) (dest b d : ℕ)
    (bytes more : List ℕ) (state : HandlerState) (writer : Writer) where
  two_packets :
      g.loop ≡ receiving
      → lookup id g.sessions.m ≡ some dest
      → g.handlers dest ≡ some (state, writer)
      → state.seen_header ≡ true
      → accept writer.calls (b ∷ bytes) ≡ write_error
      → Steps accept g (at_second g id dest (d ∷ more))
  unfolding destination find_unlocked
  two_packets r found waits seen failed =
      let first = chunk id (b ∷ bytes) in
      let second = chunk id (d ∷ more) in
      let left : waits_on (handle_tunnel_control accept state first writer) ≡ none =
        waits_on-write_error accept id b bytes state writer seen failed in
      let g₁ : Goroutines = record g { loop = sending id false dest first } in
      let g₂ : Goroutines = record g {
        loop = receiving;
        handlers =
            update g.handlers dest (waits_on (handle_tunnel_control accept state first writer));
      } in
      let one : Steps accept g g₁ = next here (begin_send first id false dest r refl found) in
      let two : Steps accept g g₂ =
        next one (complete_send first id false dest state writer refl waits) in
      let two' : Steps accept g
          (record g { loop = receiving; handlers = update g.handlers dest none }) =
        subst
          (λ h. Steps accept g (record g { loop = receiving; handlers = update g.handlers dest h }))
          left two in
      next two' (begin_send second id false dest refl refl found)

  -- A request waits in the middle of its response, and its client has gone: the write of the next packet
  -- fails. Then another packet behind it, before the cancellation is through, stops the connection: its
  -- goroutines can come to the send of that packet, and whatever they do from there, the loop stays in the
  -- middle of this send, with the lock, to a handler that has returned, and the list of requests is as it
  -- was: nothing is received from the agent any more, no request is entered, and none is removed.
  pub chunk-IsStuck :
      (g' : Goroutines)
      → g.loop ≡ receiving
      → lookup id g.sessions.m ≡ some dest
      → g.handlers dest ≡ some (state, writer)
      → state.seen_header ≡ true
      → accept writer.calls (b ∷ bytes) ≡ write_error
      → Steps accept (at_second g id dest (d ∷ more)) g'
      → Steps accept g (at_second g id dest (d ∷ more))
        × IsStuck id false dest (chunk id (d ∷ more)) g.sessions g'
  chunk-IsStuck g' r found waits seen failed steps = (
    two_packets r found waits seen failed,
    Steps-IsStuck accept id false dest (chunk id (d ∷ more)) g.sessions steps (record {
      at_send = refl;
      returned = update_self g.handlers dest none;
      listed = holds-lookup id dest g.sessions.m found;
      unchanged = refl;
    }),
  )
