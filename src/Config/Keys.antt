-- ===== src/Config/Keys.antt =====
-- app/forwarder-controller/main.go, `loadKeyset`: the keys that sign service tokens and headers. The walk
-- over the directory is the list of what it visits; the key set is the JWX library's, the parameters.
use oes_birger.Prelude.{
  String, ◌==◌, eq_iff, ◌≡◌, ◌≢◌, subst, Bool, true, not, List, [], ◌∷◌, if◌then◌else◌, arith,
  Result, ok, err, ◌>>=◌, >>=-eq-ok, Bool-cases, inl, inr,
}
use oes_birger.Text.{is_empty_text}
use oes_birger.Authority.{Bytes}
use oes_birger.Config.Controller.{ServiceAuthConfig}

pub data Error : Type 0 where
  no_key_name : Error
  key_not_loaded : Error
  no_mutation_key_name : Error
  library : String → Error

-- What the walk visits: a file or a directory, or the error of a directory that cannot be read.
pub data Visit : Type 0 where
  visited : String → Bool → Result Error Bytes → Visit
  unreadable : Error → Visit

ok-inj : {A : Type 0} {a b : A} → ◌≡◌ {A = Result Error A} (ok a) (ok b) → a ≡ b
ok-inj e = cc e

module _ {S : Type 0} (add_key : String → Bytes → S → Result Error S)
    (has_key : String → S → Bool) where
  unfoldable pub load_keys : List Visit → S → Result Error S
  load_keys [] keyset = ok keyset
  load_keys (unreadable e ∷ visits) keyset = err e
  load_keys (visited name is_regular content ∷ visits) keyset =
      let rest = load_keys visits in
      if not is_regular
      then rest keyset
      else (do bytes ← content; keyset' ← add_key name bytes keyset; rest keyset')

  abbrev pub checked_keys : ServiceAuthConfig → S → Result Error (S × String)
  checked_keys c keyset =
      if not (has_key c.current_key_name keyset)
      then err key_not_loaded
      else if is_empty_text c.header_mutation_key_name
      then err no_mutation_key_name
      else ok (keyset, c.current_key_name)

  -- The key set and the name of the current key; a `Fatal` is an `err`.
  unfoldable pub load_keyset : ServiceAuthConfig → List Visit → S → Result Error (S × String)
  unfolding load_keys is_empty_text
  load_keyset c visits empty =
      if c.current_key_name == ""
      then err no_key_name
      else (do keyset ← load_keys visits empty; checked_keys c keyset)

  checked_keys-inv :
      (c : ServiceAuthConfig) (read keyset : S) (current : String)
      → checked_keys c read ≡ ok (keyset, current)
      → (has_key current keyset ≡ true) × (c.header_mutation_key_name ≢ "")
  unfolding is_empty_text
  checked_keys-inv c read keyset current e = elim (Bool-cases (has_key c.current_key_name read)) [
    | inr absent ↦ cc (rw absent at e)
    | inl there ↦ elim (Bool-cases (c.header_mutation_key_name == "")) [
      | inl none_set ↦ cc (rw (there, none_set) at e)
      | inr set ↦
          let same : ◌≡◌ {A = Result Error (S × String)} (ok (read, c.current_key_name))
              (ok (keyset, current)) =
            rw (there, set) at e in
          (
            subst (λ t. has_key t.1 t.0 ≡ true) (ok-inj same) there,
            λ empty. ground (arith, eq_iff c.header_mutation_key_name ""),
          )
    ]
  ]

  -- Where the keys are loaded, the current key is among them, and a key is named for signing headers.
  pub load_keyset-has_key :
      (c : ServiceAuthConfig) (visits : List Visit) (empty keyset : S) (current : String)
      → load_keyset c visits empty ≡ ok (keyset, current)
      → (has_key current keyset ≡ true) × (c.header_mutation_key_name ≢ "")
  unfolding load_keyset
  load_keyset-has_key c visits empty keyset current e =
      elim (Bool-cases (c.current_key_name == "")) [
        | inl unnamed ↦ cc (rw (unnamed, load_keyset) at e)
        | inr named ↦
            let (read, _, e₁) =
              >>=-eq-ok (load_keys visits empty) _ (rw (named, load_keyset) at e) in
            checked_keys-inv c read keyset current e₁
      ]
