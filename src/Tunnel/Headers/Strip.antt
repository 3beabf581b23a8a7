-- ===== src/Tunnel/Headers/Strip.antt =====
-- What `MakeHeaders` lets through.
use oes_birger.Prelude.{
  ℕ, String, ◌≡◌, refl, ◌==◌, eq_iff, true, false, List, [], ◌∷◌, arith, ok, Ensures, Ensures->>=,
  All, All-append,
}
use oes_birger.Text.{equal_fold, map_text, fold_char}
use oes_birger.Jwt.{Registry, Mutation}
use oes_birger.Tunnel.Messages.{HttpHeader}
use oes_birger.Tunnel.Headers.{
  Header, contains_folded, mutated_headers, stripped_outgoing_headers, is_mutated, make_header,
  make_headers,
}

abbrev pub IsStripped : String → Type 0
IsStripped name = contains_folded stripped_outgoing_headers name ≡ true

-- A name that folds to one text folds to no other.
equal_fold_apart :
    (a b n : String)
    → (map_text fold_char a == map_text fold_char b) ≡ false
    → equal_fold a n ≡ true
    → equal_fold b n ≡ false
unfolding equal_fold
equal_fold_apart a b n apart h = ground (
  arith,
  eq_iff (map_text fold_char a) (map_text fold_char b),
  eq_iff (map_text fold_char a) (map_text fold_char n),
  eq_iff (map_text fold_char b) (map_text fold_char n),
)

apart : (map_text fold_char "X-Spinnaker-User" == map_text fold_char "Authorization") ≡ false
unfolding map_text fold_char
apart = refl

mutated-not-stripped :
    (n : String)
    → contains_folded mutated_headers n ≡ true
    → contains_folded stripped_outgoing_headers n ≡ false
unfolding contains_folded
mutated-not-stripped n h =
    ground (arith, equal_fold_apart "X-Spinnaker-User" "Authorization" n apart)

module _ (r : Registry) (m : Mutation) (now : ℕ) where
  abbrev pub IsKept : HttpHeader → Type 0
  IsKept h = contains_folded stripped_outgoing_headers h.name ≡ false

  make_header-IsKept :
      (name : String) (values : List String)
      → Ensures (All IsKept) (make_header r m now name values)
  unfolding make_header is_mutated
  make_header-IsKept name values = ground (arith, mutated-not-stripped name)

  kept : (headers : Header) → Ensures (All IsKept) (make_headers r m now headers)
  unfolding make_headers
  kept [] = tt
  kept ((name, values) ∷ headers) =
      Ensures->>= (All IsKept) (All IsKept) (make_header r m now name values) _
        (make_header-IsKept name values)
        (λ made h.
          Ensures->>= (All IsKept) (All IsKept) (make_headers r m now headers) _ (kept headers)
            (λ rest k. All-append IsKept made rest h k))

  -- No header that `MakeHeaders` returns is the credentials header, in any spelling of its name.
  pub make_headers-IsKept :
      (headers : Header) (made : List HttpHeader)
      → make_headers r m now headers ≡ ok made
      → All IsKept made
  make_headers-IsKept headers made e = rw e at (kept headers)
