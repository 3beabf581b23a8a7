-- ===== src/Tunnel/Headers/RoundTrip.antt =====
-- Headers across the tunnel: what `MakeHeaders` sends, `CopyHeaders` restores.
use oes_birger.Prelude.{
  ℕ, String, ◌≡◌, ◌≤◌, ◌<◌, ◌+◌, eq_refl, Bool, true, false, List, [], ◌∷◌, ◌++◌, append-nil,
  append_assoc, none, lookup, insert_absent, insert-append_last, lookup-append_last, arith, ok,
  >>=-eq-ok, All, Bool-cases, inl, inr,
}
use oes_birger.Text.{canonical_key}
use oes_birger.Jwt.{Registry, IsSound, Mutation, mutate_header, mutate_registry_name}
use oes_birger.Jwt.RoundTrip.{unmutate_header-mutate_header}
use oes_birger.Tunnel.Messages.{HttpHeader}
use oes_birger.Tunnel.Headers.{
  Header, contains_folded, stripped_outgoing_headers, is_mutated, make_header, make_headers,
  copy_header, copy_headers, header_add, header_add_all,
}

-- More values under a key that stands last.
header_add_all_last :
    (key : String) (values more : List String) (out : Header)
    → canonical_key key ≡ key
    → lookup key out ≡ none
    → header_add_all key more (out ++ (key, values) ∷ []) ≡ out ++ (key, values ++ more) ∷ []
unfolding header_add_all header_add
header_add_all_last key values [] out c h = rw append-nil
header_add_all_last key values (v ∷ more) out c h = ground (
  arith,
  eq_refl key,
  lookup-append_last key key values out,
  insert-append_last key values (values ++ v ∷ []) out,
  header_add_all_last key (values ++ v ∷ []) more out c h,
  append_assoc values (v ∷ []) more,
)

pub header_add_all_new :
    (key : String) (v : String) (more : List String) (out : Header)
    → canonical_key key ≡ key
    → lookup key out ≡ none
    → header_add_all key (v ∷ more) out ≡ out ++ (key, v ∷ more) ∷ []
unfolding header_add_all header_add
header_add_all_new key v more out c h =
    ground (arith, insert_absent key (v ∷ []) out, header_add_all_last key (v ∷ []) more out c h)

header_add_new :
    (key : String) (v : String) (out : Header)
    → canonical_key key ≡ key
    → lookup key out ≡ none
    → header_add key v out ≡ out ++ (key, v ∷ []) ∷ []
unfolding header_add
header_add_new key v out c h = ground (arith, insert_absent key (v ∷ []) out)

module _ (r : Registry) (m : Mutation) where
  -- A header is carried whole if it has a value, and no more than one where its value is signed.
  abbrev pub IsValued : Bool → List String → Type 0
  IsValued b [] = ⊥
  IsValued true (v ∷ vs) = vs ≡ []
  IsValued false (v ∷ vs) = Unit

  pub record IsCarried (e : String × List String) : Type 0 where
    pub canonical : canonical_key e.0 ≡ e.0
    pub kept : contains_folded stripped_outgoing_headers e.0 ≡ false
    pub valued : IsValued (is_mutated m e.0) e.1

  -- Each key stands once, and none of them in `out`.
  abbrev pub IsFresh : Header → Header → Type 0
  IsFresh out [] = Unit
  IsFresh out ((name, values) ∷ headers) =
      (lookup name out ≡ none) × IsFresh (out ++ (name, values) ∷ []) headers

  module _ (sound : IsSound r) (signed now : ℕ) (early : signed ≤ now)
      (late : now < signed + r.validity mutate_registry_name) where
    copy_mutated :
        (name v : String) (vs : List String) (out : Header) (made rest : List HttpHeader)
        → is_mutated m name ≡ true
        → vs ≡ []
        → canonical_key name ≡ name
        → lookup name out ≡ none
        → make_header r m signed name (v ∷ vs) ≡ ok made
        → copy_headers r m now (made ++ rest) out
          ≡ copy_headers r m now rest (out ++ (name, v ∷ vs) ∷ [])
    unfolding make_header copy_headers copy_header
    copy_mutated name v vs out made rest hit single canonical fresh e =
        let (token, signs, e') =
          >>=-eq-ok (mutate_header r v signed) _ (rw (hit, make_header) at e) in
        ground (
          arith,
          unmutate_header-mutate_header r sound signed now token v signs early late,
          header_add_new name v out canonical fresh,
        )

    copy_plain :
        (name v : String) (vs : List String) (out : Header) (made rest : List HttpHeader)
        → is_mutated m name ≡ false
        → contains_folded stripped_outgoing_headers name ≡ false
        → canonical_key name ≡ name
        → lookup name out ≡ none
        → make_header r m signed name (v ∷ vs) ≡ ok made
        → copy_headers r m now (made ++ rest) out
          ≡ copy_headers r m now rest (out ++ (name, v ∷ vs) ∷ [])
    unfolding make_header copy_headers copy_header
    copy_plain name v vs out made rest miss kept canonical fresh e =
        ground (arith, header_add_all_new name v vs out canonical fresh)

    copy_made :
        (name : String) (values : List String) (out : Header) (made rest : List HttpHeader)
        → IsCarried (name, values)
        → lookup name out ≡ none
        → make_header r m signed name values ≡ ok made
        → copy_headers r m now (made ++ rest) out
          ≡ copy_headers r m now rest (out ++ (name, values) ∷ [])
    copy_made name [] out made rest c fresh e = absurd c.valued
    copy_made name (v ∷ vs) out made rest c fresh e = elim (Bool-cases (is_mutated m name)) [
      | inl hit ↦ copy_mutated name v vs out made rest hit (rw hit at c.valued) c.canonical fresh e
      | inr miss ↦ copy_plain name v vs out made rest miss c.kept c.canonical fresh e
    ]

    copy_from :
        (headers out : Header) (made : List HttpHeader)
        → All IsCarried headers
        → IsFresh out headers
        → make_headers r m signed headers ≡ ok made
        → copy_headers r m now made out ≡ ok (out ++ headers)
    unfolding make_headers copy_headers
    copy_from [] out made c f e = cc (append-nil out)
    copy_from ((name, values) ∷ headers) out made c f e =
        let (first_made, e1, e') = >>=-eq-ok (make_header r m signed name values) _ e in
        let (rest, e2, e3) = >>=-eq-ok (make_headers r m signed headers) _ e' in
        cc (
          e3,
          copy_made name values out first_made rest c.0 f.0 e1,
          copy_from headers (out ++ (name, values) ∷ []) rest c.1 f.1 e2,
          append_assoc out ((name, values) ∷ []) headers,
        )

    -- Headers whose names are canonical, distinct and not the credentials header, each with a value
    -- and with just one where it is signed, come out of the tunnel as they went in, if the tokens
    -- are still valid.
    pub copy_headers-make_headers :
        (headers : Header) (made : List HttpHeader)
        → All IsCarried headers
        → IsFresh [] headers
        → make_headers r m signed headers ≡ ok made
        → copy_headers r m now made [] ≡ ok headers
    copy_headers-make_headers headers made c f e = copy_from headers [] made c f e
