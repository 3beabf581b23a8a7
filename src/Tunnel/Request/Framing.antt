-- ===== src/Tunnel/Request/Framing.antt =====
-- The shape of what `RunHTTPRequest` sends: a head, packets that are not empty, and an empty one.
use oes_birger.Prelude.{
  ℕ, String, ◌≡◌, refl, Bool, true, false, List, [], ◌∷◌, ◌++◌, append-nil, arith,
}
use oes_birger.Tunnel.Messages.{MessageWrapper, make_chunked_response}
use oes_birger.Tunnel.Request.{
  Read, ReadError, no_error, eof, canceled, other, data_packet, after_read, send_body,
}

-- The bytes that the reads give, up to the first error.
abbrev pub after_error : ReadError → List ℕ → List ℕ
after_error no_error later = later
after_error eof later = []
after_error canceled later = []
after_error other later = []

unfoldable pub bytes_read : List Read → List ℕ
bytes_read [] = []
bytes_read (r ∷ reads) = r.bytes ++ after_error r.error (bytes_read reads)

-- How the body ends: the error that stops the loop, if the reads have come to one.
unfoldable pub ending : List Read → ReadError
ending [] = no_error
ending (r ∷ reads) = elim r.error [
  | no_error ↦ ending reads
  | eof ↦ eof
  | canceled ↦ canceled
  | other ↦ other
]

-- Packets of the request `id` that hold `bytes`: none is empty, and the empty one comes last, if at all.
pub data Packets (id : String) : List ℕ → List MessageWrapper → Bool → Type 0 where
  none_yet : Packets id [] [] false
  last : Packets id [] (make_chunked_response id [] ∷ []) true
  packet :
      {rest : List ℕ} {ms : List MessageWrapper} {closed : Bool} (b : ℕ) (bytes : List ℕ)
      → Packets id rest ms closed
      → Packets id ((b ∷ bytes) ++ rest) (make_chunked_response id (b ∷ bytes) ∷ ms) closed

-- Whether the far side is told of the end, and whether the loop has come to one.
abbrev pub is_announced : ReadError → Bool
is_announced no_error = false
is_announced eof = true
is_announced canceled = false
is_announced other = true

abbrev pub has_ended : ReadError → Bool
has_ended no_error = false
has_ended eof = true
has_ended canceled = true
has_ended other = true

module _ (id : String) where
  data-Packets :
      {rest : List ℕ} {ms : List MessageWrapper} {closed : Bool} (bytes : List ℕ)
      → Packets id rest ms closed
      → Packets id (bytes ++ rest) (data_packet id bytes ++ ms) closed
  unfolding data_packet
  data-Packets [] p = p
  data-Packets (b ∷ bytes) p = packet b bytes p

  only_data-Packets : (bytes : List ℕ) → Packets id (bytes ++ []) (data_packet id bytes) false
  only_data-Packets bytes = rw (append-nil (data_packet id bytes)) at (data-Packets bytes none_yet)

  after_read-Packets :
      (bytes : List ℕ) (error : ReadError) (reads : List Read)
      → Packets id (bytes_read reads) (send_body id reads).sent (is_announced (ending reads))
      → let r : Read = record { bytes = bytes; error = error } in
        Packets id
          (bytes_read (r ∷ reads))
          (send_body id (r ∷ reads)).sent
          (is_announced (ending (r ∷ reads)))
  unfolding send_body after_read bytes_read ending
  after_read-Packets bytes no_error reads p = data-Packets bytes p
  after_read-Packets bytes eof reads p = data-Packets bytes last
  after_read-Packets bytes canceled reads p = only_data-Packets bytes
  after_read-Packets bytes other reads p = data-Packets bytes last

  -- The packets hold just what was read before the first error, in order, and are ended by the
  -- empty packet exactly when the loop has stopped for another reason than a cancelled context.
  pub send_body-Packets :
      (reads : List Read)
      → Packets id (bytes_read reads) (send_body id reads).sent (is_announced (ending reads))
  unfolding send_body bytes_read ending
  send_body-Packets [] = none_yet
  send_body-Packets (r ∷ reads) = after_read-Packets r.bytes r.error reads (send_body-Packets reads)

  -- The loop returns at the first error, and only there.
  pub returned-send_body :
      (reads : List Read) → (send_body id reads).returned ≡ has_ended (ending reads)
  unfolding send_body after_read ending
  returned-send_body [] = refl
  returned-send_body (r ∷ reads) = ground (arith, returned-send_body reads)
