-- ===== src/Tunnel/Headers/ThroughAgent.antt =====
-- Headers that the controller sends to an agent, whose service sends them back in a call of its own: only
-- the controller signs headers and reads the signed ones.
use oes_birger.Prelude.{
  ℕ, String, ◌≡◌, refl, ◌≤◌, ◌<◌, ◌+◌, ◌∙◌, ap, sym, subst, ◌⊎◌, true, false, List, [], ◌∷◌, ◌++◌,
  append-nil, append_assoc, none, lookup, lookup-append_last, arith, ok, >>=-eq-ok, All, Bool-cases,
  inl, inr,
}
use oes_birger.Text.{canonical_key, equal_fold}
use oes_birger.Jwt.{
  Registry, IsSound, Mutation, mutation_is_registered, mutate_header, mutate_registry_name,
}
use oes_birger.Tunnel.Messages.{HttpHeader}
use oes_birger.Tunnel.Headers.{
  Header, contains_folded, stripped_outgoing_headers, is_mutated, make_header, make_headers,
  copy_header, copy_headers,
}
use oes_birger.Tunnel.Headers.RoundTrip.{
  IsCarried, IsFresh, header_add_all_new, copy_headers-make_headers,
}

-- At the controller a key set is registered, at an agent none is.
abbrev pub registered : Mutation
registered = record { registered = true }

abbrev pub unregistered : Mutation
unregistered = record { registered = false }

-- What the service behind the agent is handed: the user's name as a token that the controller has signed, and all
-- else as it was.
pub data Handed (r : Registry) (signed : ℕ) : Header → Header → Type 0 where
  nothing : Handed r signed [] []
  plain :
      {headers seen : Header} (name : String) (values : List String)
      → equal_fold "X-Spinnaker-User" name ≡ false
      → Handed r signed headers seen
      → Handed r signed ((name, values) ∷ headers) ((name, values) ∷ seen)
  as_token :
      {headers seen : Header} (name user token : String)
      → equal_fold "X-Spinnaker-User" name ≡ true
      → mutate_header r user signed ≡ ok token
      → Handed r signed headers seen
      → Handed r signed ((name, user ∷ []) ∷ headers) ((name, token ∷ []) ∷ seen)

module _ (r : Registry) (now : ℕ) where
  copy_headers-unregistered :
      (name w : String) (ws : List String) (made : List HttpHeader) (out : Header)
      → canonical_key name ≡ name
      → lookup name out ≡ none
      → copy_headers r unregistered now (record { name = name; values = w ∷ ws } ∷ made) out
        ≡ copy_headers r unregistered now made (out ++ (name, w ∷ ws) ∷ [])
  unfolding copy_headers copy_header is_mutated
  copy_headers-unregistered name w ws made out canonical fresh =
      ap (copy_headers r unregistered now made) (header_add_all_new name w ws out canonical fresh)

  make_headers-unregistered :
      (name : String) (values : List String) (made : List HttpHeader) (seen : Header)
      → contains_folded stripped_outgoing_headers name ≡ false
      → make_headers r unregistered now seen ≡ ok made
      → make_headers r unregistered now ((name, values) ∷ seen)
        ≡ ok (record { name = name; values = values } ∷ made)
  unfolding make_headers make_header is_mutated
  make_headers-unregistered name values made seen kept e = ground (arith, kept, e)

module _ (r agent_r : Registry) (signed agent_now agent_later : ℕ) where
  -- What becomes of headers at the agent, whatever was there before.
  pub record Passed (headers out : Header) (made : List HttpHeader) : Type 0 where
    pub seen : Header
    pub copied : copy_headers agent_r unregistered agent_now made out ≡ ok (out ++ seen)
    pub handed : Handed r signed headers seen
    pub again : make_headers agent_r unregistered agent_later seen ≡ ok made

  -- One more header at the front.
  cons-Passed :
      (name w : String) (values ws : List String) (headers out : Header) (made : List HttpHeader)
      → canonical_key name ≡ name
      → contains_folded stripped_outgoing_headers name ≡ false
      → lookup name out ≡ none
      → ((seen : Header)
          → Handed r signed headers seen
          → Handed r signed ((name, values) ∷ headers) ((name, w ∷ ws) ∷ seen))
      → Passed headers (out ++ (name, w ∷ ws) ∷ []) made
      → Passed ((name, values) ∷ headers) out (record { name = name; values = w ∷ ws } ∷ made)
  cons-Passed name w values ws headers out made canonical kept absent hand p = record {
    seen = (name, w ∷ ws) ∷ p.seen;
    copied =
        copy_headers-unregistered agent_r agent_now name w ws made out canonical absent
        ∙ p.copied
        ∙ ap ok (append_assoc out ((name, w ∷ ws) ∷ []) p.seen);
    handed = hand p.seen p.handed;
    again = make_headers-unregistered agent_r agent_later name (w ∷ ws) made p.seen kept p.again;
  }

  -- The controller's header of one name.
  make_header-cases :
      (name v : String) (vs : List String) (made : List HttpHeader)
      → IsCarried r registered (name, v ∷ vs)
      → make_header r registered signed name (v ∷ vs) ≡ ok made
      → ((equal_fold "X-Spinnaker-User" name ≡ false)
          × (made ≡ record { name = name; values = v ∷ vs } ∷ []))
        ⊎ ((token : String) × (equal_fold "X-Spinnaker-User" name ≡ true)
            × (vs ≡ [])
            × (mutate_header r v signed ≡ ok token)
            × (made ≡ record { name = name; values = token ∷ [] } ∷ []))
  unfolding make_header is_mutated contains_folded mutation_is_registered
  make_header-cases name v vs made c e = elim (Bool-cases (equal_fold "X-Spinnaker-User" name)) [
    | inr plain_name ↦ inl (plain_name, ground (arith, c.kept))
    | inl user_name ↦
        let single : vs ≡ [] = rw user_name at c.valued in
        let (token, signs, e') = >>=-eq-ok (mutate_header r v signed) _ (rw user_name at e) in
        inr (token, user_name, single, signs, cc e')
  ]

  still_absent :
      (name key : String) (v w : List String) (fresh_for out : Header)
      → ((k : String) → lookup k fresh_for ≡ none → lookup k out ≡ none)
      → lookup name fresh_for ≡ none
      → lookup key (fresh_for ++ (name, v) ∷ []) ≡ none
      → lookup key (out ++ (name, w) ∷ []) ≡ none
  still_absent name key v w fresh_for out absent fresh e = ground (
    arith,
    lookup-append_last name key v fresh_for,
    lookup-append_last name key w out,
    absent name,
    absent key,
  )

  passes :
      (headers fresh_for out : Header) (made : List HttpHeader)
      → ((key : String) → lookup key fresh_for ≡ none → lookup key out ≡ none)
      → All (IsCarried r registered) headers
      → IsFresh r registered fresh_for headers
      → make_headers r registered signed headers ≡ ok made
      → Passed headers out made
  unfolding make_headers copy_headers
  passes [] fresh_for out made absent carried fresh e =
      let same : [] ≡ made = cc e in
      subst (Passed [] out) same
        (record { seen = []; copied = rw append-nil refl; handed = nothing; again = refl })
  passes ((name, []) ∷ headers) fresh_for out made absent carried fresh e = absurd carried.0.valued
  passes ((name, v ∷ vs) ∷ headers) fresh_for out made absent carried fresh e =
      let (own, e₁, e') = >>=-eq-ok (make_header r registered signed name (v ∷ vs)) _ e in
      let (rest, e₂, e₃) = >>=-eq-ok (make_headers r registered signed headers) _ e' in
      let free = absent name fresh.0 in
      elim (make_header-cases name v vs own carried.0 e₁) [
        | inl (plain_name, alone) ↦
            let same : record { name = name; values = v ∷ vs } ∷ rest ≡ made = cc (e₃, alone) in
            subst (Passed ((name, v ∷ vs) ∷ headers) out) same (
              cons-Passed name v (v ∷ vs) vs headers out rest carried.0.canonical carried.0.kept
                free (λ seen h. plain name (v ∷ vs) plain_name h)
                (passes headers (fresh_for ++ (name, v ∷ vs) ∷ []) (out ++ (name, v ∷ vs) ∷ []) rest
                  (λ key. still_absent name key (v ∷ vs) (v ∷ vs) fresh_for out absent fresh.0)
                  carried.1 fresh.1 e₂))
        | inr (token, user_name, single, signs, alone) ↦
            let same : record { name = name; values = token ∷ [] } ∷ rest ≡ made = cc (e₃, alone) in
            subst (Passed ((name, v ∷ vs) ∷ headers) out) same (
              cons-Passed name token (v ∷ vs) [] headers out rest carried.0.canonical carried.0.kept
                free
                (λ seen h.
                  subst
                    (λ us. Handed r signed ((name, v ∷ us) ∷ headers) ((name, token ∷ []) ∷ seen))
                    (sym single) (as_token name v token user_name signs h))
                (passes headers (fresh_for ++ (name, v ∷ vs) ∷ []) (out ++ (name, token ∷ []) ∷ [])
                  rest
                  (λ key. still_absent name key (v ∷ vs) (token ∷ []) fresh_for out absent fresh.0)
                  carried.1 fresh.1 e₂))
      ]

  -- Headers whose names are canonical, distinct and not the credentials header, each with a value, and the
  -- user's name with just one, go from the controller, where a key set is registered, to an agent, where none
  -- is: the service behind it is handed a token that the controller has signed in place of the user's name, and
  -- all else as it was. If this service passes them on in a call of its own, they come back to the
  -- controller as they had left it, and there they are read as they were in the beginning, while the tokens are
  -- still valid.
  pub copy_headers-through_agent :
      (now : ℕ) (headers : Header) (made : List HttpHeader)
      → IsSound r
      → signed ≤ now
      → now < signed + r.validity mutate_registry_name
      → All (IsCarried r registered) headers
      → IsFresh r registered [] headers
      → make_headers r registered signed headers ≡ ok made
      → (seen : Header) × (copy_headers agent_r unregistered agent_now made [] ≡ ok seen)
        × Handed r signed headers seen
        × (make_headers agent_r unregistered agent_later seen ≡ ok made)
        × (copy_headers r registered now made [] ≡ ok headers)
  copy_headers-through_agent now headers made sound early late carried fresh e =
      let p = passes headers [] [] made (λ key none_there. none_there) carried fresh e in
      (
        p.seen,
        p.copied,
        p.handed,
        p.again,
        copy_headers-make_headers r registered sound signed now early late headers made carried
            fresh e,
      )
